-- ===== src/Pipelines/Derive.antt =====
-- The derivations over an input (trigger.go, cron.go, git.go): accumulation branches, the
-- repositories of cron inputs and of git inputs, and the lists of those.
pub mod Names
pub mod Stored
pub mod Triggers
use sandman.Prelude.{
  Bytes, codes, ℕ, zero, suc, slash, Bool, true, false, Option, none, some, List, [], ◌∷◌, ◌++◌,
  if◌then◌else◌, eqs, ltb, trim_suffix, mem_byte, ◌==◌,
}
use sandman.Prelude.Decimal.{Signed, plus, minus}
use sandman.Store.Data.{Store, Env}
use sandman.Store.Repos.{create_repo}
use sandman.Trigger.{trigger_branch}
use sandman.Pipelines.Inputs.{
  GitInput, Trigger, InputFields, Input, has_positive, master, input_branch, walk_inputs,
}

abbrev pub or_else : Bytes → Bytes → Bytes
or_else s t = if eqs s [] then t else s

abbrev pub has_text : Bytes → Bool
has_text [] = false
has_text (c ∷ s) = true

-- deriveTriggerBranches: what it writes into a node at a position.
abbrev pub accumulate : Bytes → ℕ → InputFields → Trigger → InputFields
accumulate pipeline pos f t = record f {
  trigger = some (record t { branch = or_else t.branch (input_branch f) });
  branch = trigger_branch pipeline pos;
}

abbrev pub visit_trigger : Bytes → ℕ → InputFields → ℕ × InputFields
visit_trigger pipeline pos f = elim f.trigger [
  | none ↦ (suc pos, f)
  | some t ↦ if has_positive (some t) then (suc pos, accumulate pipeline pos f t) else (suc pos, f)
]

unfoldable pub derive_trigger_branches : Bytes → Option Input → Option Input
derive_trigger_branches pipeline i = (walk_inputs (visit_trigger pipeline) 0 i).1

unfoldable pub cron_repo : Bytes → Bytes → Bytes
cron_repo pipeline name = pipeline ++ codes "-" ++ name

-- deriveCronRepos. An error of CreateRepo is dropped.
abbrev pub cron_side : Bytes → InputFields → InputFields
cron_side pipeline f = record f {
  repo = cron_repo pipeline f.name;
  glob = or_else f.glob (codes "/*");
}

abbrev pub visit_cron : Env → Bytes → Store → InputFields → Store × InputFields
visit_cron env pipeline s f =
    if has_text f.cron
    then ((create_repo env s (cron_repo pipeline f.name)).0, cron_side pipeline f)
    else (s, f)

unfoldable pub derive_cron_repos : Env → Bytes → Store → Option Input → Store × Option Input
derive_cron_repos env pipeline s i = walk_inputs (visit_cron env pipeline) s i

-- What stands behind the last slash, or the whole text.
unfoldable pub last_segment : Bytes → Bytes
last_segment [] = []
last_segment (c ∷ s) =
    let rest = last_segment s in if mem_byte slash s then rest else if c == slash then s else c ∷ s

unfoldable pub git_repo_name : Bytes → Bytes
git_repo_name u = last_segment (trim_suffix (codes ".git") u)

unfoldable pub git_tracked_branch : GitInput → Bytes
git_tracked_branch g = or_else g.branch master

-- deriveGitRepos
abbrev pub git_name : InputFields → GitInput → Bytes
git_name f g = or_else f.name (git_repo_name g.url)

abbrev pub git_side : InputFields → GitInput → InputFields
git_side f g = record f {
  name = git_name f g;
  repo = git_name f g;
  glob = or_else f.glob (codes "/");
  branch = git_tracked_branch g;
}

abbrev pub visit_git : Env → Store → InputFields → Store × InputFields
visit_git env s f = elim f.git [
  | none ↦ (s, f)
  | some g ↦ ((create_repo env s (git_name f g)).0, git_side f g)
]

unfoldable pub derive_git_repos : Env → Store → Option Input → Store × Option Input
derive_git_repos env s i = walk_inputs (visit_git env) s i

-- gitSideRepos
abbrev pub visit_git_repo : List Bytes → InputFields → List Bytes × InputFields
visit_git_repo out f = elim f.git [
  | none ↦ (out, f)
  | some g ↦ (out ++ or_else f.repo (git_repo_name g.url) ∷ [], f)
]

unfoldable pub git_side_repos : Option Input → List Bytes
git_side_repos i = (walk_inputs visit_git_repo [] i).0

-- cronSideRepos
abbrev pub visit_cron_repo : Bytes → List Bytes → InputFields → List Bytes × InputFields
visit_cron_repo pipeline out f =
    if has_text f.cron then (out ++ cron_repo pipeline f.name ∷ [], f) else (out, f)

unfoldable pub cron_side_repos : Bytes → Option Input → List Bytes
cron_side_repos pipeline i = (walk_inputs (visit_cron_repo pipeline) [] i).0
