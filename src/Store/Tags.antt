-- ===== src/Store/Tags.antt =====
-- Tags: durable global names bound to file content (store.go, "tags").
use sandman.Prelude.{Bytes, not, none, some, List, [], ◌∷◌, if◌then◌else◌, is_some}
use sandman.Prelude.Map.{Map, get, put, remove, keys}
use sandman.Prelude.Sort.{sort_by}
use sandman.Prelude.Result.{Result, ok, err, Done}
use sandman.Store.Data.{Store, Env, Error, TagInfo, invalid_tag_name, tag_not_found, blob_missing}
use sandman.Store.Names.{valid_name, case_name_collision}
use sandman.Store.Records.{write_blob, read_blob}

unfoldable pub put_tag : Env → Store → Bytes → Bytes → Store × Result Error Done
put_tag env s name content =
    if not (valid_name name)
    then (s, err (invalid_tag_name name))
    else elim (case_name_collision env (keys s.tags) name) [
      | some e ↦ (s, err e)
      | none ↦
          let w = write_blob env s content in
          (record (w.0) { tags = put name w.1 (w.0).tags }, ok tt)
    ]

unfoldable pub get_tag : Store → Bytes → Result Error Bytes
unfolding read_blob
get_tag s name = elim (get name s.tags) [
  | none ↦ err (tag_not_found name)
  | some sha ↦ elim (read_blob s sha) [ none ↦ err (blob_missing sha) | some b ↦ ok b ]
]

unfoldable pub delete_tag : Store → Bytes → Store × Result Error Done
delete_tag s name =
    if not (valid_name name)
    then (s, err (invalid_tag_name name))
    else if not (is_some (get name s.tags))
    then (s, err (tag_not_found name))
    else (record s { tags = remove name s.tags }, ok tt)

unfoldable pub tag_infos : Map Bytes → List TagInfo
tag_infos [] = []
tag_infos ((n, ref) ∷ ts) = record { name = n; ref = ref } ∷ tag_infos ts

unfoldable pub list_tags : Store → List TagInfo
unfolding tag_infos sort_by
list_tags s = sort_by (λ t. t.name) (tag_infos s.tags)
