-- ===== src/Convention/Declaring.antt =====
-- What `declare` leaves of the convention itself in a group's attributes.
use icechest.Base.{
  String, ◌≡◌, refl, true, false, Option, none, some, List, [], ◌∷◌, arith, eq_refl, any,
  any-append, length, length-append, inl, inr, Bool-cases,
}
use icechest.Base.Dict
use icechest.Base.Dict.{Dict, get-update, all-get, all-update}
use icechest.Base.Exec.{ok, Result-cases}
use icechest.Convention.{
  TableBinding, all_to_attrs, is_ours, register, same_list, same_attribute, declaration,
  holds_already, declare, after_declare, is_declared, conventions_key, tables_attr,
  declared_conventions, declared_tables, convention_metadata_object, convention_uuid,
}
use icechest.Formats.{Attribute, Attributes, objects, table_map, null, text, opaque}

any_ours-register : (declared : List (Dict String)) → any is_ours (register declared) ≡ true
unfolding register is_ours Dict.get
any_ours-register declared =
    ground (
      arith,
      any-append is_ours declared (convention_metadata_object ∷ []),
      eq_refl convention_uuid,
    )

same_list-length : (xs ys : List (Dict String)) → same_list xs ys ≡ true → length xs ≡ length ys
unfolding same_list
same_list-length [] [] h = refl
same_list-length (x ∷ xs) (y ∷ ys) h = ground (arith, same_list-length xs ys)
same_list-length [] (y ∷ ys) h = cc
same_list-length (x ∷ xs) [] h = cc

-- A list that `register` makes no longer has our declaration.
register_same :
    (declared : List (Dict String))
    → same_list (register declared) declared ≡ true
    → any is_ours declared ≡ true
unfolding register
register_same declared h = elim (Bool-cases (any is_ours declared)) [
  | inl there ↦ there
  | inr absent ↦ ground (
    arith,
    same_list-length (register declared) declared,
    length-append declared (convention_metadata_object ∷ []),
  )
]

module _ {E : Type 0} where
  -- The conventions attribute, where `declare` writes nothing.
  conventions_held :
      (a : Option Attribute) (declared : List (Dict String))
      → declared_conventions {E = E} a ≡ ok declared
      → (elim a [ none ↦ false | some w ↦ same_attribute (objects (register declared)) w ]) ≡ true
      → any is_ours declared ≡ true
  unfolding declared_conventions same_attribute
  conventions_held none declared h held = cc
  conventions_held (some (objects cmos)) declared h held = ground (arith, register_same declared)
  conventions_held (some null) declared h held = cc
  conventions_held (some (text s)) declared h held = cc
  conventions_held (some (table_map t)) declared h held = cc
  conventions_held (some (opaque s)) declared h held = cc

  -- After a `declare` that does not raise, whether it wrote or found all there, the group declares
  -- the convention.
  declare-is_declared :
      (bindings : Dict TableBinding) (attrs : Attributes) {written : Option Attributes}
      → declare {E = E} bindings attrs ≡ ok written
      → is_declared {E = E} (after_declare attrs written) ≡ ok true
  unfolding declare is_declared after_declare declaration holds_already Dict.get
  declare-is_declared bindings attrs h =
      elim (Result-cases (declared_conventions {E = E} (Dict.get conventions_key attrs))) [
        | inl (declared, found) ↦
            elim (Result-cases (declared_tables {E = E} (Dict.get tables_attr attrs))) [
              | inl (tables, read) ↦
                  let updated =
                    declaration (register declared) (Dict.update tables (all_to_attrs bindings)) in
                  elim (Bool-cases (holds_already attrs updated)) [
                    | inl same ↦
                        ground
                          (arith, conventions_held (Dict.get conventions_key attrs) declared found)
                    | inr differ ↦ ground (
                      arith,
                      get-update conventions_key attrs updated,
                      any_ours-register declared,
                    )
                  ]
              | inr (e, failed) ↦ ground arith
            ]
        | inr (e, failed) ↦ ground arith
      ]
