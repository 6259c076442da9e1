-- ===== src/Pipelines/Derive/Stored.antt =====
-- The store after the derivations (CreateRepo in deriveCronRepos and deriveGitRepos).
use sandman.Prelude.{
  Bytes, ◌≡◌, Bool, true, false, not, ◌||◌, Option, none, some, List, [], ◌∷◌, if◌then◌else◌,
  is_some, All, All-map, All-append, eqs_refl, arith,
}
use sandman.Prelude.Map.{get, get-put}
use sandman.Store.Data.{Store, Env}
use sandman.Store.Names.{valid_name}
use sandman.Store.Records.{no_repo}
use sandman.Store.Repos.{create_repo}
use sandman.Pipelines.Inputs.{GitInput, InputFields, Input}
use sandman.Pipelines.Inputs.Nodes.{nodes_of, visit_all, walk_inputs_state, gather}
use sandman.Pipelines.Derive.{
  has_text, cron_repo, visit_cron, derive_cron_repos, cron_side, git_name, git_side, visit_git,
  derive_git_repos,
}
use sandman.Pipelines.Derive.Names.{declared_cron, declared_git}

abbrev pub has_repo : Store → Bytes → Bool
has_repo s repo = is_some (get repo s.repos)

-- A repository under a valid name is there.
abbrev pub IsCreated : Store → Bytes → Type 0
IsCreated s repo = (not (valid_name repo) || has_repo s repo) ≡ true

create_repo-IsCreated :
    (env : Env) (s : Store) (repo : Bytes) → IsCreated (create_repo env s repo).0 repo
unfolding create_repo
create_repo-IsCreated env s repo = ground (arith, get-put repo repo no_repo s.repos, eqs_refl repo)

create_repo-has_repo :
    (env : Env) (s : Store) (repo other : Bytes)
    → has_repo s other ≡ true
    → has_repo (create_repo env s repo).0 other ≡ true
unfolding create_repo
create_repo-has_repo env s repo other h = ground (arith, get-put repo other no_repo s.repos)

IsCreated-mono :
    (s t : Store) (repo : Bytes)
    → (has_repo s repo ≡ true → has_repo t repo ≡ true)
    → IsCreated s repo
    → IsCreated t repo
IsCreated-mono s t repo h c = ground (arith, h)

-- A visitor that creates the repositories it lists for a node, and keeps the others.
module _ (visit : Store → InputFields → Store × InputFields) (g : InputFields → List Bytes)
    (created : (s : Store) (f : InputFields) → All (IsCreated (visit s f).0) (g f))
    (kept : (s : Store) (f : InputFields) (other : Bytes)
      → has_repo s other ≡ true
      → has_repo (visit s f).0 other ≡ true) where
  visit_all-kept :
      (s : Store) (fs : List InputFields) (other : Bytes)
      → has_repo s other ≡ true
      → has_repo (visit_all visit s fs).0 other ≡ true
  visit_all-kept s [] other h = h
  visit_all-kept s (f ∷ fs) other h = visit_all-kept (visit s f).0 fs other (kept s f other h)

  visit_all-IsCreated :
      (s : Store) (fs : List InputFields) → All (IsCreated (visit_all visit s fs).0) (gather g fs)
  visit_all-IsCreated s [] = tt
  visit_all-IsCreated s (f ∷ fs) =
      All-append (IsCreated (visit_all visit (visit s f).0 fs).0) (g f) (gather g fs)
        (All-map
          (λ r.
            IsCreated-mono (visit s f).0 (visit_all visit (visit s f).0 fs).0 r
              (visit_all-kept (visit s f).0 fs r))
          (g f) (created s f))
        (visit_all-IsCreated (visit s f).0 fs)

IsCreated-if :
    (env : Env) (s : Store) (f g : InputFields) (repo : Bytes) (b : Bool)
    → All
        (IsCreated
          (if◌then◌else◌ {A = Store × InputFields} b ((create_repo env s repo).0, f) (s, g)).0)
        (if b then repo ∷ [] else [])
IsCreated-if env s f g repo true = (create_repo-IsCreated env s repo, tt)
IsCreated-if env s f g repo false = tt

visit_cron-IsCreated :
    (env : Env) (pipeline : Bytes) (s : Store) (f : InputFields)
    → All (IsCreated (visit_cron env pipeline s f).0) (declared_cron pipeline f)
visit_cron-IsCreated env pipeline s f =
    IsCreated-if env s (cron_side pipeline f) f (cron_repo pipeline f.name) (has_text f.cron)

visit_cron-kept :
    (env : Env) (pipeline : Bytes) (s : Store) (f : InputFields) (other : Bytes)
    → has_repo s other ≡ true
    → has_repo (visit_cron env pipeline s f).0 other ≡ true
visit_cron-kept env pipeline s f other h =
    ground (arith, create_repo-has_repo env s (cron_repo pipeline f.name) other h)

visit_git-IsCreated :
    (env : Env) (s : Store) (f : InputFields)
    → All (IsCreated (visit_git env s f).0) (declared_git f)
visit_git-IsCreated env s f = at f.git
  where
    at :
        (git : Option GitInput)
        → All
            (IsCreated
              (elim git as (λ x. Store × InputFields) [
                | none ↦ (s, f)
                | some g ↦ ((create_repo env s (git_name f g)).0, git_side f g)
              ]).0)
            (elim git as (λ x. List Bytes) [ none ↦ [] | some g ↦ git_name f g ∷ [] ])
    at none = tt
    at (some g) = (create_repo-IsCreated env s (git_name f g), tt)

visit_git-kept :
    (env : Env) (s : Store) (f : InputFields) (other : Bytes)
    → has_repo s other ≡ true
    → has_repo (visit_git env s f).0 other ≡ true
visit_git-kept env s f other h = at f.git
  where
    at :
        (git : Option GitInput)
        → has_repo
            (elim git as (λ x. Store × InputFields) [
              | none ↦ (s, f)
              | some g ↦ ((create_repo env s (git_name f g)).0, git_side f g)
            ]).0
            other
          ≡ true
    at none = h
    at (some g) = create_repo-has_repo env s (git_name f g) other h

-- After the derivation of cron inputs every tick repository under a valid name exists, at whatever
-- depth of the input its cron stands.
pub derive_cron_repos-IsCreated :
    (env : Env) (pipeline : Bytes) (s : Store) (i : Option Input)
    → All
        (IsCreated (derive_cron_repos env pipeline s i).0)
        (gather (declared_cron pipeline) (nodes_of i))
unfolding derive_cron_repos
derive_cron_repos-IsCreated env pipeline s i =
    rw (walk_inputs_state (visit_cron env pipeline) s i) (
      visit_all-IsCreated (visit_cron env pipeline) (declared_cron pipeline)
        (visit_cron-IsCreated env pipeline) (visit_cron-kept env pipeline) s (nodes_of i))

pub derive_git_repos-IsCreated :
    (env : Env) (s : Store) (i : Option Input)
    → All (IsCreated (derive_git_repos env s i).0) (gather declared_git (nodes_of i))
unfolding derive_git_repos
derive_git_repos-IsCreated env s i = rw (walk_inputs_state (visit_git env) s i) (
    visit_all-IsCreated (visit_git env) declared_git (visit_git-IsCreated env) (visit_git-kept env)
      s (nodes_of i))
