-- ===== src/Store/Repos.antt =====
-- Repositories and branches (store.go, "repositories").
use sandman.Prelude.{
  Bytes, codes, ℕ, ◌+◌, Bool, false, not, ◌&&◌, ◌||◌, Option, none, some, List, [], ◌∷◌,
  if◌then◌else◌, eqs, has_prefix, is_some,
}
use sandman.Prelude.Map.{Map, get, put, remove, keys}
use sandman.Prelude.Sort.{sort, sort_by, mem}
use sandman.Prelude.Result.{Result, ok, err, Done}
use sandman.Store.Data.{
  Store, Env, Error, Commit, RepoInfo, BranchInfo, invalid_repo_name, invalid_branch_name,
  repo_not_found, branch_not_found, repo_exists, spec_protected, force_required, default_branch,
  no_head, commit_not_found,
}
use sandman.Store.Names.{valid_name, valid_branch_name, case_name_collision}
use sandman.Store.Records.{no_repo, repo_of, spec_repo, load_commit, to_commit, repo_names}
use sandman.Store.View.{View, entry_size, resolve_view, head_of}

unfoldable pub create_repo : Env → Store → Bytes → Store × Result Error Done
create_repo env s name =
    if not (valid_name name) then (s, err (invalid_repo_name name)) else elim (get name s.repos) [
      | some r ↦ elim (case_name_collision env (repo_names s.repos) name) [
        | some e ↦ (s, err e)
        | none ↦ (s, err (repo_exists name))
      ]
      | none ↦ (record s { repos = put name no_repo s.repos }, ok tt)
    ]

unfoldable pub delete_repo : Store → Bytes → Bool → Store × Result Error Done
unfolding mem
delete_repo s name force =
    if not (valid_name name)
    then (s, err (invalid_repo_name name))
    else if eqs name spec_repo
    then (s, err spec_protected)
    else if not (is_some (get name s.repos))
    then (s, err (repo_not_found name))
    else if not force && mem name s.pipelines
    then (s, err (force_required name))
    else (record s { repos = remove name s.repos }, ok tt)

unfoldable pub branches : Store → Bytes → List Bytes
unfolding sort keys
branches s name = sort (keys (repo_of (get name s.repos)).refs)

abbrev pub or_empty : Option Bytes → Bytes
or_empty none = []
or_empty (some b) = b

-- HeadCommit: "" where the branch has no ref.
unfoldable pub head_commit : Store → Bytes → Bytes → Bytes
head_commit s repo branch = head_of s repo branch

unfoldable pub primary_head : Store → Bytes → Bytes
unfolding head_commit
primary_head s repo = elim ((repo_of (get repo s.repos)).primary) [
  | none ↦ []
  | some b ↦ head_commit s repo b
]

unfoldable pub total_size : View → ℕ
unfolding entry_size
total_size [] = 0
total_size ((p, e) ∷ v) = entry_size e + total_size v

unfoldable pub head_size : Store → Bytes → Bytes → ℕ
unfolding total_size
head_size s name head =
    if eqs head []
    then 0
    else elim (load_commit s name head) [ none ↦ 0 | some rec ↦ total_size (resolve_view s rec) ]

unfoldable pub inspect_repo : Store → Bytes → Result Error RepoInfo
unfolding branches primary_head head_size
inspect_repo s name =
    if not (valid_name name)
    then err (invalid_repo_name name)
    else if not (is_some (get name s.repos))
    then err (repo_not_found name)
    else ok (record {
      name = name;
      branches = branches s name;
      size_bytes = head_size s name (primary_head s name);
    })

unfoldable pub inspect_each : Store → List Bytes → List RepoInfo
unfolding inspect_repo
inspect_each s [] = []
inspect_each s (n ∷ ns) =
    let rest = inspect_each s ns in
    if has_prefix (codes ".") n || eqs n spec_repo
    then rest
    else elim (inspect_repo s n) [ err e ↦ rest | ok r ↦ r ∷ rest ]

unfoldable pub list_repos : Store → List RepoInfo
unfolding inspect_each sort_by repo_names
list_repos s = sort_by (λ r. r.name) (inspect_each s (repo_names s.repos))

unfoldable pub ref_infos : Bytes → Map Bytes → List BranchInfo
ref_infos repo [] = []
ref_infos repo ((b, id) ∷ refs) =
    record { repo = repo; branch = b; head = id } ∷ ref_infos repo refs

unfoldable pub branch_refs : Store → Bytes → Result Error (List BranchInfo)
unfolding ref_infos sort_by
branch_refs s repo =
    if not (valid_name repo) then err (invalid_repo_name repo) else elim (get repo s.repos) [
      | none ↦ err (repo_not_found repo)
      | some r ↦ ok (sort_by (λ b. b.branch) (ref_infos repo r.refs))
    ]

unfoldable pub branch_head : Store → Bytes → Bytes → Result Error Bytes
branch_head s repo branch =
    if not (valid_name repo)
    then err (invalid_repo_name repo)
    else if not (valid_branch_name branch)
    then err (invalid_branch_name branch)
    else elim (get repo s.repos) [
      | none ↦ err (repo_not_found repo)
      | some r ↦ elim (get branch r.refs) [ none ↦ err (branch_not_found branch) | some id ↦ ok id ]
    ]

abbrev pub is_primary : Option Bytes → Bytes → Bool
is_primary none b = false
is_primary (some p) b = eqs p b

unfoldable pub delete_branch : Store → Bytes → Bytes → Store × Result Error Done
delete_branch s repo branch =
    if not (valid_name repo)
    then (s, err (invalid_repo_name repo))
    else if not (valid_branch_name branch)
    then (s, err (invalid_branch_name branch))
    else elim (get repo s.repos) [
      | none ↦ (s, err (repo_not_found repo))
      | some r ↦
          if is_primary r.primary branch
          then (s, err (default_branch branch))
          else if not (is_some (get branch r.refs))
          then (s, err (branch_not_found branch))
          else (
            record s { repos = put repo (record r { refs = remove branch r.refs }) s.repos },
            ok tt,
          )
    ]

unfoldable pub head_commit_rec : Store → Bytes → Bytes → Result Error Commit
unfolding head_commit to_commit
head_commit_rec s repo branch =
    if not (valid_name repo)
    then err (invalid_repo_name repo)
    else if not (is_some (get repo s.repos))
    then err (repo_not_found repo)
    else if eqs (head_commit s repo branch) []
    then err (no_head branch)
    else elim (load_commit s repo (head_commit s repo branch)) [
      | none ↦ err (commit_not_found (head_commit s repo branch))
      | some rec ↦ ok (to_commit rec)
    ]
