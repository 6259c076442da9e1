-- ===== src/Pipelines/Customization.antt =====
-- A customization of the execution environment (customization.go). What encoding/json makes of a
-- text is a parameter: json.Valid, the decoding of an object, of a list, of one operation with its
-- "op", "path" and "value", and of the document into the typed customization.
use sandman.Prelude.{
  Bytes, codes, slash, Bool, not, ◌||◌, Option, none, some, List, [], ◌∷◌, if◌then◌else◌, eqs,
  has_prefix, drop_prefix, ◌==◌,
}
use sandman.Prelude.Map.{Map, get, put}
use sandman.Prelude.Result.{Result, ok, err}

-- A decoded document. The members of an object stand in a list of pairs of their own.
mutual
  pub data Json : Type 0 where
    scalar : Bytes → Json
    array : JsonList → Json
    object : JsonMap → Json

  pub data JsonList : Type 0 where
    no_items : JsonList
    item : Json → JsonList → JsonList

  pub data JsonMap : Type 0 where
    no_members : JsonMap
    member : Bytes → Json → JsonMap → JsonMap

pub record Volume : Type 0 where
  pub host_path : Bytes
  pub empty_dir : Bool

pub record Customization : Type 0 where
  pub env : Map Bytes
  pub volumes : Map Volume
  pub workdir : Bytes

pub data CustomError : Type 0 where
  spec_not_json : CustomError
  spec_undecodable : CustomError
  patch_not_json : CustomError
  patch_undecodable : CustomError
  operation_undecodable : CustomError
  path_unsupported : Bytes → CustomError
  value_missing : CustomError
  not_an_object : Bytes → CustomError
  operation_unsupported : Bytes → CustomError
  unknown_key : Bytes → CustomError
  custom_undecodable : CustomError
  not_one_source : Bytes → CustomError

abbrev pub member_put : Bytes → Json → JsonMap → JsonMap
member_put k v no_members = member k v no_members
member_put k v (member j w m) =
    let rest = member_put k v m in if eqs j k then member j v m else member j w rest

abbrev pub member_remove : Bytes → JsonMap → JsonMap
member_remove k no_members = no_members
member_remove k (member j w m) =
    let rest = member_remove k m in if eqs j k then rest else member j w rest

-- strings.Cut at the first slash.
abbrev pub cut_slash : Bytes → Bytes × Bytes
cut_slash [] = ([], [])
cut_slash (c ∷ s) = let rest = cut_slash s in if c == slash then ([], s) else (c ∷ rest.0, rest.1)

-- The section of a document, which an addition creates.
abbrev pub section_of : Map Json → Bytes → Json
section_of doc head = elim (get head doc) [ none ↦ object no_members | some j ↦ j ]

abbrev pub set_member : Map Json → Bytes → Bytes → Json → Result CustomError (Map Json)
set_member doc head rest value = elim (section_of doc head) [
  | object m ↦ ok (put head (object (member_put rest value m)) doc)
  | _ ↦ err (not_an_object head)
]

abbrev pub delete_member : Map Json → Bytes → Bytes → Result CustomError (Map Json)
delete_member doc head rest = elim (get head doc) [
  | none ↦ ok doc
  | some j ↦ elim j [
    | object m ↦ ok (put head (object (member_remove rest m)) doc)
    | _ ↦ err (not_an_object head)
  ]
]

abbrev pub apply_at : Map Json → Bytes → Bytes × Bytes → Option Json → Result CustomError (Map Json)
apply_at doc op (head, rest) value =
    if eqs op (codes "add") || eqs op (codes "replace")
    then elim value [ none ↦ err value_missing | some v ↦ set_member doc head rest v ]
    else if eqs op (codes "remove")
    then delete_member doc head rest
    else err (operation_unsupported op)

unfoldable pub apply_patch_op :
    (Json → Option (Bytes × (Bytes × Option Json)))
    → Map Json
    → Json
    → Result CustomError (Map Json)
apply_patch_op decode_op doc raw = elim (decode_op raw) [
  | none ↦ err operation_undecodable
  | some o ↦
      if not (has_prefix (slash ∷ []) o.1.0) || eqs o.1.0 (slash ∷ [])
      then err (path_unsupported o.1.0)
      else apply_at doc o.0 (cut_slash (drop_prefix (slash ∷ []) o.1.0)) o.1.1
]

unfoldable pub apply_patch :
    (Json → Option (Bytes × (Bytes × Option Json)))
    → Map Json
    → List Json
    → Result CustomError (Map Json)
apply_patch decode_op doc [] = ok doc
apply_patch decode_op doc (o ∷ os) = elim (apply_patch_op decode_op doc o) [
  | err e ↦ err e
  | ok d ↦ apply_patch decode_op d os
]

abbrev pub is_known_key : Bytes → Bool
is_known_key k = eqs k (codes "env") || (eqs k (codes "volumes") || eqs k (codes "workdir"))

abbrev pub unknown_in : Map Json → Option Bytes
unknown_in [] = none
unknown_in ((k, v) ∷ m) = let rest = unknown_in m in if is_known_key k then rest else some k

unfoldable pub remarshal :
    (Map Json → Option Customization) → Map Json → Result CustomError Customization
remarshal decode_custom doc = elim (unknown_in doc) [
  | some k ↦ err (unknown_key k)
  | none ↦ elim (decode_custom doc) [ none ↦ err custom_undecodable | some c ↦ ok c ]
]

abbrev pub bad_volume : Map Volume → Option Bytes
bad_volume [] = none
bad_volume ((name, v) ∷ m) =
    let rest = bad_volume m in
    if (if v.empty_dir then eqs v.host_path [] else not (eqs v.host_path []))
    then rest
    else some name

-- The first document: an empty one, or the pod spec.
abbrev pub base_of :
    (Bytes → Bool) → (Bytes → Option (Map Json)) → Bytes → Result CustomError (Map Json)
base_of valid_json decode_object spec =
    if eqs spec []
    then ok []
    else if not (valid_json spec)
    then err spec_not_json
    else elim (decode_object spec) [ none ↦ err spec_undecodable | some m ↦ ok m ]

abbrev pub patched :
    (Bytes → Bool)
    → (Bytes → Option (List Json))
    → (Json → Option (Bytes × (Bytes × Option Json)))
    → Bytes
    → Map Json
    → Result CustomError (Map Json)
patched valid_json decode_list decode_op patch doc =
    if eqs patch []
    then ok doc
    else if not (valid_json patch)
    then err patch_not_json
    else elim (decode_list patch) [
      | none ↦ err patch_undecodable
      | some ops ↦ apply_patch decode_op doc ops
    ]

abbrev pub check_volumes : Customization → Result CustomError Customization
check_volumes c = elim (bad_volume c.volumes) [
  | none ↦ ok c
  | some name ↦ err (not_one_source name)
]

-- parseCustomization of a transform's PodSpec and PodPatch. A pod spec `null`, which decodes to a
-- nil map, is not one that `decode_object` takes.
unfoldable pub parse_customization :
    (Bytes → Bool)
    → (Bytes → Option (Map Json))
    → (Bytes → Option (List Json))
    → (Json → Option (Bytes × (Bytes × Option Json)))
    → (Map Json → Option Customization)
    → Bytes
    → Bytes
    → Result CustomError Customization
parse_customization valid_json decode_object decode_list decode_op decode_custom spec patch =
    elim (base_of valid_json decode_object spec) [
      | err e ↦ err e
      | ok base ↦ elim (patched valid_json decode_list decode_op patch base) [
        | err e ↦ err e
        | ok doc ↦ elim (remarshal decode_custom doc) [ err e ↦ err e | ok c ↦ check_volumes c ]
      ]
    ]
