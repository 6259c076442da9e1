-- ===== src/Pipelines/Derive/Names.antt =====
-- The names that the derivations store in an input's nodes, and those that the deletion of a
-- pipeline lists (deriveCronRepos, cronSideRepos, deriveGitRepos, gitSideRepos).
use mathlib.Core.List.{map, append-nil}
use sandman.Prelude.{
  Bytes, ◌≡◌, refl, sym, ◌∙◌, ap, Option, none, some, List, [], ◌∷◌, ◌++◌, if◌then◌else◌, arith,
}
use sandman.Store.Data.{Store, Env}
use sandman.Pipelines.Inputs.{InputFields, Input}
use sandman.Pipelines.Inputs.Nodes.{
  nodes_of, walk_inputs_state, nodes_of-walk_inputs, visit_all-map, gather, visit_all-gather,
}
use sandman.Pipelines.Derive.{
  or_else, has_text, cron_repo, cron_side, visit_cron, derive_cron_repos, git_repo_name, git_name,
  git_side, visit_git, derive_git_repos, visit_git_repo, git_side_repos, visit_cron_repo,
  cron_side_repos,
}

-- The repositories of a node, as the spec declares them and as its Repo field has them.
abbrev pub declared_cron : Bytes → InputFields → List Bytes
declared_cron pipeline f = if has_text f.cron then cron_repo pipeline f.name ∷ [] else []

abbrev pub stored_cron : InputFields → List Bytes
stored_cron f = if has_text f.cron then f.repo ∷ [] else []

abbrev pub declared_git : InputFields → List Bytes
declared_git f = elim f.git [ none ↦ [] | some g ↦ git_name f g ∷ [] ]

abbrev pub stored_git : InputFields → List Bytes
stored_git f = elim f.git [ none ↦ [] | some g ↦ f.repo ∷ [] ]

abbrev listed_git : InputFields → List Bytes
listed_git f = elim f.git [ none ↦ [] | some g ↦ or_else f.repo (git_repo_name g.url) ∷ [] ]

abbrev derived_cron : Bytes → InputFields → InputFields
derived_cron pipeline f = if has_text f.cron then cron_side pipeline f else f

abbrev derived_git : InputFields → InputFields
derived_git f = elim f.git [ none ↦ f | some g ↦ git_side f g ]

visit_cron_repo_lem :
    (pipeline : Bytes) (out : List Bytes) (f : InputFields)
    → visit_cron_repo pipeline out f ≡ (out ++ declared_cron pipeline f, f)
visit_cron_repo_lem pipeline out f = ground (arith, append-nil out)

cron_side_repos_lem :
    (pipeline : Bytes) (i : Option Input)
    → cron_side_repos pipeline i ≡ gather (declared_cron pipeline) (nodes_of i)
unfolding cron_side_repos
cron_side_repos_lem pipeline i =
    walk_inputs_state (visit_cron_repo pipeline) [] i
    ∙ ap (λ (p : List Bytes × List InputFields). p.0)
        (visit_all-gather (visit_cron_repo pipeline) (declared_cron pipeline)
          (visit_cron_repo_lem pipeline) [] (nodes_of i))

visit_git_repo_lem :
    (out : List Bytes) (f : InputFields) → visit_git_repo out f ≡ (out ++ listed_git f, f)
visit_git_repo_lem out f = ground (arith, append-nil out)

git_side_repos_lem : (i : Option Input) → git_side_repos i ≡ gather listed_git (nodes_of i)
unfolding git_side_repos
git_side_repos_lem i =
    walk_inputs_state visit_git_repo [] i
    ∙ ap (λ (p : List Bytes × List InputFields). p.0)
        (visit_all-gather visit_git_repo listed_git visit_git_repo_lem [] (nodes_of i))

visit_cron_side :
    (env : Env) (pipeline : Bytes) (s : Store) (f : InputFields)
    → (visit_cron env pipeline s f).1 ≡ derived_cron pipeline f
visit_cron_side env pipeline s f = ground arith

visit_git_side : (env : Env) (s : Store) (f : InputFields) → (visit_git env s f).1 ≡ derived_git f
visit_git_side env s f = ground arith

-- Two ways to list what the nodes have after a derivation and before it.
gather-map :
    (h : InputFields → InputFields) (g k : InputFields → List Bytes)
    → ((f : InputFields) → g (h f) ≡ k f)
    → (fs : List InputFields) → gather g (map h fs) ≡ gather k fs
gather-map h g k e [] = refl
gather-map h g k e (f ∷ fs) = rw (e f, gather-map h g k e fs) refl

stored_cron-derived :
    (pipeline : Bytes) (f : InputFields)
    → stored_cron (derived_cron pipeline f) ≡ declared_cron pipeline f
stored_cron-derived pipeline f = ground arith

declared_cron-derived :
    (pipeline : Bytes) (f : InputFields)
    → declared_cron pipeline (derived_cron pipeline f) ≡ declared_cron pipeline f
declared_cron-derived pipeline f = ground arith

stored_git-derived : (f : InputFields) → stored_git (derived_git f) ≡ declared_git f
stored_git-derived f = ground arith

listed_git-derived : (f : InputFields) → listed_git (derived_git f) ≡ declared_git f
listed_git-derived f = ground arith

cron_nodes :
    (env : Env) (pipeline : Bytes) (s : Store) (i : Option Input)
    → nodes_of (derive_cron_repos env pipeline s i).1 ≡ map (derived_cron pipeline) (nodes_of i)
unfolding derive_cron_repos
cron_nodes env pipeline s i =
    nodes_of-walk_inputs (visit_cron env pipeline) s i
    ∙ visit_all-map (visit_cron env pipeline) (derived_cron pipeline) (visit_cron_side env pipeline)
        s (nodes_of i)

git_nodes :
    (env : Env) (s : Store) (i : Option Input)
    → nodes_of (derive_git_repos env s i).1 ≡ map derived_git (nodes_of i)
unfolding derive_git_repos
git_nodes env s i =
    nodes_of-walk_inputs (visit_git env) s i
    ∙ visit_all-map (visit_git env) derived_git (visit_git_side env) s (nodes_of i)

-- The tick repositories that the deletion of a pipeline computes from its stored input are those
-- that the cron inputs declare, and those that the derivation wrote into the Repo fields, at
-- whatever depth the cron inputs stand.
pub cron_side_repos-derive_cron_repos :
    (env : Env) (pipeline : Bytes) (s : Store) (i : Option Input)
    → (cron_side_repos pipeline (derive_cron_repos env pipeline s i).1 ≡ cron_side_repos pipeline i)
      × (cron_side_repos pipeline (derive_cron_repos env pipeline s i).1
          ≡ gather stored_cron (nodes_of (derive_cron_repos env pipeline s i).1))
cron_side_repos-derive_cron_repos env pipeline s i =
    let after =
      cron_side_repos_lem pipeline (derive_cron_repos env pipeline s i).1
      ∙ ap (gather (declared_cron pipeline)) (cron_nodes env pipeline s i)
      ∙ gather-map (derived_cron pipeline) (declared_cron pipeline) (declared_cron pipeline)
          (declared_cron-derived pipeline) (nodes_of i) in
    let stored =
      ap (gather stored_cron) (cron_nodes env pipeline s i)
      ∙ gather-map (derived_cron pipeline) stored_cron (declared_cron pipeline)
          (stored_cron-derived pipeline) (nodes_of i) in
    (after ∙ sym (cron_side_repos_lem pipeline i), after ∙ sym stored)

-- The mapped repositories that the deletion of a pipeline computes from its stored input are, in
-- the order of the walk, the declared name of each git input or else the name in its URL, and they
-- are those that the derivation wrote into the Repo fields.
pub git_side_repos-derive_git_repos :
    (env : Env) (s : Store) (i : Option Input)
    → (git_side_repos (derive_git_repos env s i).1 ≡ gather declared_git (nodes_of i))
      × (git_side_repos (derive_git_repos env s i).1
          ≡ gather stored_git (nodes_of (derive_git_repos env s i).1))
git_side_repos-derive_git_repos env s i =
    let after =
      git_side_repos_lem (derive_git_repos env s i).1
      ∙ ap (gather listed_git) (git_nodes env s i)
      ∙ gather-map derived_git listed_git declared_git listed_git-derived (nodes_of i) in
    let stored =
      ap (gather stored_git) (git_nodes env s i)
      ∙ gather-map derived_git stored_git declared_git stored_git-derived (nodes_of i) in
    (after, after ∙ sym stored)
