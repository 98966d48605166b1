-- ===== src/Convention/Bindings.antt =====
-- The bindings that `declare` leaves in a group's attributes.
use icechest.Base.{
  String, ◌≡◌, refl, Bool, true, false, Option, none, some, [], ◌∷◌, arith, ◌==◌, eq_iff, eq_refl,
  all, inl, inr, or_else, Option-cases, Bool-cases,
}
use icechest.Base.Dict
use icechest.Base.Dict.{Dict, get-update, all-get, all-update}
use icechest.Base.Exec.{ok, Result-cases}
use icechest.Convention.{
  TableBinding, to_attrs, from_attrs, all_to_attrs, all_from_attrs, register, same_at, same_dict,
  same_object, same_attribute, declaration, holds_already, declare, after_declare, read_bindings,
  conventions_key, tables_attr, declared_conventions, declared_tables,
}
use icechest.Formats.{Attribute, Attributes, objects, table_map, null, text, opaque}

-- The location that the attributes of a table bind it to.
abbrev has_location : Dict String → Bool
has_location raw = Dict.contains "location" raw

abbrev binding_of : Option (Dict String) → Option TableBinding
binding_of none = none
binding_of (some raw) = elim (Dict.get "location" raw) [
  | none ↦ none
  | some location ↦ some (record { location = location })
]

has_location-to_attrs :
    (bindings : Dict TableBinding)
    → all (λ (_, raw). has_location raw) (all_to_attrs bindings) ≡ true
unfolding all_to_attrs to_attrs Dict.get
has_location-to_attrs [] = refl
has_location-to_attrs ((i, b) ∷ bindings) =
    ground (arith, has_location-to_attrs bindings, eq_refl "location")

get-all_to_attrs :
    (name : String) (bindings : Dict TableBinding)
    → (Dict.get name (all_to_attrs bindings) ≡ (elim (Dict.get name bindings) [
      | none ↦ none
      | some b ↦ some (("location", b.location) ∷ [])
    ]))
      × (binding_of (Dict.get name (all_to_attrs bindings)) ≡ Dict.get name bindings)
unfolding all_to_attrs to_attrs Dict.get
get-all_to_attrs name [] = (refl, refl)
get-all_to_attrs name ((i, b) ∷ bindings) =
    ground (arith, get-all_to_attrs name bindings, eq_iff i name, eq_refl "location")

-- What two equal objects hold under a key of the first.
same_object-get :
    (key : String) {v : String} (d e : Dict String)
    → same_object d e ≡ true
    → Dict.get key d ≡ some v
    → Dict.get key e ≡ some v
unfolding same_dict
same_object-get key {v} d e same found = elim (Option-cases (Dict.get key e)) [
  | inl missing ↦ ground (arith, all-get (same_at ◌==◌ e) key {v = v} d)
  | inr (u, there) ↦ ground (arith, all-get (same_at ◌==◌ e) key {v = v} d, eq_iff v u)
]

-- An update that leaves a dict equal to itself has no new value.
same_update :
    (name : String) {r : Dict String} (tables update : Dict (Dict String))
    → same_dict same_object (Dict.update tables update) tables ≡ true
    → Dict.get name update ≡ some r
    → (w : Dict String) × (Dict.get name tables ≡ some w) × (same_object r w ≡ true)
unfolding same_dict
same_update name {r} tables update same found =
    let at =
      all-get (same_at same_object tables) name {v = r} (Dict.update tables update) (ground arith)
        (ground (arith, get-update name tables update)) in
    elim (Option-cases (Dict.get name tables)) [
      | inl missing ↦ ground arith
      | inr (w, there) ↦ (w, there, ground arith)
    ]

binding_of-same_update :
    (name : String) (tables : Dict (Dict String)) (bindings : Dict TableBinding) {b : TableBinding}
    → same_dict same_object (Dict.update tables (all_to_attrs bindings)) tables ≡ true
    → Dict.get name bindings ≡ some b
    → binding_of (Dict.get name tables) ≡ some b
binding_of-same_update name tables bindings {b} same new =
    elim (Option-cases (Dict.get name (all_to_attrs bindings))) [
      | inl missing ↦ ground (arith, get-all_to_attrs name bindings)
      | inr (r, found) ↦
          let (w, there, alike) =
            same_update name {r = r} tables (all_to_attrs bindings) same found in
          ground (
            arith,
            get-all_to_attrs name bindings,
            same_object-get "location" {v = b.location} r w alike,
          )
    ]

module _ {E : Type 0} where
  all_from_attrs-get :
      (name : String) (raw : Dict (Dict String)) {bindings : Dict TableBinding}
      → all_from_attrs {E = E} raw ≡ ok bindings
      → Dict.get name bindings ≡ binding_of (Dict.get name raw)
  unfolding all_from_attrs from_attrs Dict.get
  all_from_attrs-get name [] h = ground arith
  all_from_attrs-get name ((i, r) ∷ raw) h = elim (Result-cases (all_from_attrs {E = E} raw)) [
    | inl (rest, done) ↦ elim (Option-cases (Dict.get "location" r)) [
      | inl missing ↦ ground arith
      | inr (l, there) ↦ ground (arith, all_from_attrs-get name raw done, eq_iff i name)
    ]
    | inr (e, failed) ↦ elim (Option-cases (Dict.get "location" r)) [
      | inl missing ↦ ground arith
      | inr (l, there) ↦ ground arith
    ]
  ]

  all_from_attrs-has_location :
      (raw : Dict (Dict String)) {bindings : Dict TableBinding}
      → all_from_attrs {E = E} raw ≡ ok bindings
      → all (λ (_, r). has_location r) raw ≡ true
  unfolding all_from_attrs from_attrs
  all_from_attrs-has_location [] h = refl
  all_from_attrs-has_location ((i, r) ∷ raw) h = elim (Result-cases (all_from_attrs {E = E} raw)) [
    | inl (rest, done) ↦ ground (arith, all_from_attrs-has_location raw done)
    | inr (e, failed) ↦ ground arith
  ]

  all_from_attrs-ok :
      (raw : Dict (Dict String))
      → all (λ (_, r). has_location r) raw ≡ true
      → (bindings : Dict TableBinding) × (all_from_attrs {E = E} raw ≡ ok bindings)
  unfolding all_from_attrs from_attrs
  all_from_attrs-ok [] h = ([], refl)
  all_from_attrs-ok ((i, r) ∷ raw) h =
      let (rest, done) = all_from_attrs-ok raw (ground arith) in
      elim (Option-cases (Dict.get "location" r)) [
        | inl missing ↦ ground arith
        | inr (l, there) ↦ ((i, record { location = l }) ∷ rest, ground arith)
      ]

  -- The tables attribute, where `declare` writes nothing.
  tables_held :
      (a : Option Attribute) (tables : Dict (Dict String)) (bindings : Dict TableBinding)
      (name : String)
      → declared_tables {E = E} a ≡ ok tables
      → (elim a [
        | none ↦ false
        | some w ↦ same_attribute (table_map (Dict.update tables (all_to_attrs bindings))) w
      ])
        ≡ true
      → binding_of (Dict.get name tables)
        ≡ or_else (Dict.get name bindings) (binding_of (Dict.get name tables))
  unfolding declared_tables same_attribute
  tables_held none tables bindings name h held = cc
  tables_held (some (table_map t)) tables bindings name h held =
      elim (Option-cases (Dict.get name bindings)) [
        | inl old ↦ ground arith
        | inr (b, new) ↦ ground (arith, binding_of-same_update name tables bindings {b = b})
      ]
  tables_held (some null) tables bindings name h held = cc
  tables_held (some (text s)) tables bindings name h held = cc
  tables_held (some (objects o)) tables bindings name h held = cc
  tables_held (some (opaque s)) tables bindings name h held = cc

  -- An update of readable bindings is readable.
  all_from_attrs-update :
      (tables : Dict (Dict String)) (bindings : Dict TableBinding) {before : Dict TableBinding}
      → all_from_attrs {E = E} tables ≡ ok before
      → (after : Dict TableBinding) × (all_from_attrs {E = E}
            (Dict.update tables (all_to_attrs bindings))
          ≡ ok after)
        × ((name : String)
            → Dict.get name after ≡ or_else (Dict.get name bindings) (Dict.get name before))
  all_from_attrs-update tables bindings {before} readable =
      let wanted = Dict.update tables (all_to_attrs bindings) in
      let (after, done) = all_from_attrs-ok wanted (
        all-update has_location tables (all_to_attrs bindings)
          (all_from_attrs-has_location tables readable) (has_location-to_attrs bindings)) in
      (
        after,
        done,
        λ name.
            let was = all_from_attrs-get name tables readable in
            let is = all_from_attrs-get name wanted done in
            ground (
              arith,
              was,
              is,
              get-update name tables (all_to_attrs bindings),
              get-all_to_attrs name bindings,
            ),
      )

  -- After a `declare` that does not raise, on a group whose bindings could be read, they can be
  -- read: the new ones, and of the old ones those under other names.
  pub declare-read_bindings :
      (bindings : Dict TableBinding) (attrs : Attributes) {written : Option Attributes}
      {before : Dict TableBinding}
      → read_bindings {E = E} attrs ≡ ok before
      → declare {E = E} bindings attrs ≡ ok written
      → (after : Dict TableBinding) × (read_bindings {E = E} (after_declare attrs written)
          ≡ ok after)
        × ((name : String)
            → Dict.get name after ≡ or_else (Dict.get name bindings) (Dict.get name before))
  unfolding declare read_bindings after_declare declaration holds_already Dict.get
  declare-read_bindings bindings attrs {before} readable h =
      elim (Result-cases (declared_conventions {E = E} (Dict.get conventions_key attrs))) [
        | inl (declared, found) ↦
            elim (Result-cases (declared_tables {E = E} (Dict.get tables_attr attrs))) [
              | inl (tables, read) ↦
                  let updated =
                    declaration (register declared) (Dict.update tables (all_to_attrs bindings)) in
                  elim (Bool-cases (holds_already attrs updated)) [
                    | inl same ↦ (
                      before,
                      ground arith,
                      λ name. ground (
                        arith,
                        all_from_attrs-get name tables {bindings = before},
                        tables_held (Dict.get tables_attr attrs) tables bindings name read,
                      ),
                    )
                    | inr differ ↦
                        let (after, done, at) =
                          all_from_attrs-update tables bindings {before = before} (ground arith) in
                        (after, ground (arith, get-update tables_attr attrs updated), at)
                  ]
              | inr (e, failed) ↦ ground arith
            ]
        | inr (e, failed) ↦ ground arith
      ]
