-- ===== src/Cli/Listing/Distinct.antt =====
-- Every type that the services list is printed once.
use serialrpc.Base.{
  ℕ, if◌then◌else◌, ◌||◌, true, false, Bool-cases, inl, inr, ℤ, List, [], ◌∷◌, ◌++◌, append-nil,
  append_assoc, ◌≡◌, refl, sym, ap, ◌∙◌,
}
use serialrpc.Io.{Bytes}
use serialrpc.Client.Hello.{same_bytes}
use serialrpc.Client.Hello.SameBytes.{same_bytes→≡}
use serialrpc.Cli.Method.{ListedType, ListedService}
use serialrpc.Cli.Listing.{contains, print_type, print_new, print_types}

contains-append :
    (names : List Bytes) (n name : Bytes)
    → contains (names ++ n ∷ []) name ≡ (contains names name || same_bytes n name)
unfolding contains
contains-append [] n name = elim (Bool-cases (same_bytes n name)) [
  | inl same ↦ rw same refl
  | inr other ↦ rw other refl
]
contains-append (x ∷ names) n name = elim (Bool-cases (same_bytes x name)) [
  | inl same ↦ rw same refl
  | inr other ↦ rw other (contains-append names n name)
]

-- A type with the service that lists it.
abbrev pub Entry : Type 0
Entry = ListedService × ListedType

abbrev pub entries : ListedService → List ListedType → List Entry
entries service [] = []
entries service (type ∷ types) = (service, type) ∷ entries service types

abbrev pub all_types : List ListedService → List Entry
all_types [] = []
all_types (service ∷ services) = entries service service.types ++ all_types services

abbrev pub remove : Bytes → List Entry → List Entry
remove name [] = []
remove name (x ∷ xs) =
    let rest = remove name xs in if same_bytes name x.1.name then rest else x ∷ rest

-- The first entry of each name.
abbrev pub distinct : List Entry → List Entry
distinct [] = []
distinct (x ∷ xs) = x ∷ remove x.1.name (distinct xs)

unprinted : List Bytes → List Entry → List Entry
unprinted printed [] = []
unprinted printed (x ∷ xs) =
    let rest = unprinted printed xs in if contains printed x.1.name then rest else x ∷ rest

unprinted-append :
    (printed : List Bytes) (n : Bytes) (xs : List Entry)
    → unprinted (printed ++ n ∷ []) xs ≡ remove n (unprinted printed xs)
unfolding unprinted
unprinted-append printed n [] = refl
unprinted-append printed n (x ∷ xs) =
    let rest = unprinted-append printed n xs in
    elim (Bool-cases (contains printed x.1.name)) [
      | inl old ↦ rw (contains-append printed n x.1.name, old) rest
      | inr new ↦ elim (Bool-cases (same_bytes n x.1.name)) [
        | inl same ↦ rw (contains-append printed n x.1.name, new, same) rest
        | inr other ↦ rw (contains-append printed n x.1.name, new, other) (ap (◌∷◌ x) rest)
      ]
    ]

remove_comm : (n m : Bytes) (xs : List Entry) → remove n (remove m xs) ≡ remove m (remove n xs)
remove_comm n m [] = refl
remove_comm n m (x ∷ xs) =
    let rest = remove_comm n m xs in
    elim (Bool-cases (same_bytes n x.1.name)) [
      | inl first ↦ elim (Bool-cases (same_bytes m x.1.name)) [
        | inl second ↦ rw (first, second) rest
        | inr second ↦ rw (first, second, first) rest
      ]
      | inr first ↦ elim (Bool-cases (same_bytes m x.1.name)) [
        | inl second ↦ rw (first, second) rest
        | inr second ↦ rw (first, second, first) (ap (◌∷◌ x) rest)
      ]
    ]

remove_idem : (n : Bytes) (xs : List Entry) → remove n (remove n xs) ≡ remove n xs
remove_idem n [] = refl
remove_idem n (x ∷ xs) = elim (Bool-cases (same_bytes n x.1.name)) [
  | inl same ↦ rw same (remove_idem n xs)
  | inr other ↦ rw (other, other) (ap (◌∷◌ x) (remove_idem n xs))
]

distinct-remove : (n : Bytes) (xs : List Entry) → distinct (remove n xs) ≡ remove n (distinct xs)
distinct-remove n [] = refl
distinct-remove n (x ∷ xs) = elim (Bool-cases (same_bytes n x.1.name)) [
  | inl same ↦
      let name : n ≡ x.1.name = same_bytes→≡ n x.1.name same in
      let twice : remove n (remove x.1.name (distinct xs)) ≡ remove n (distinct xs) =
        ap (λ (m : Bytes). remove n (remove m (distinct xs))) (sym name)
        ∙ remove_idem n (distinct xs) in
      rw (same, twice) (distinct-remove n xs)
  | inr other ↦ rw other (
      ap (◌∷◌ x)
        (ap (remove x.1.name) (distinct-remove n xs) ∙ remove_comm x.1.name n (distinct xs)))
]

distinct-unprinted_append :
    (printed : List Bytes) (n : Bytes) (xs : List Entry)
    → distinct (unprinted (printed ++ n ∷ []) xs) ≡ remove n (distinct (unprinted printed xs))
distinct-unprinted_append printed n xs =
    ap distinct (unprinted-append printed n xs) ∙ distinct-remove n (unprinted printed xs)

unprinted-nil : (xs : List Entry) → unprinted [] xs ≡ xs
unfolding unprinted contains
unprinted-nil [] = refl
unprinted-nil (x ∷ xs) = ap (◌∷◌ x) (unprinted-nil xs)

abbrev pub names : List Entry → List Bytes
names [] = []
names (x ∷ xs) = x.1.name ∷ names xs

module _ (unsigned : ℕ → Bytes) (signed : ℤ → Bytes) where
  abbrev pub texts : List Entry → Bytes
  texts [] = []
  texts (x ∷ xs) = print_type unsigned signed x.0 x.1 ++ texts xs

  -- The loops as one, over the entries.
  print_entries : List Entry → List Bytes → Bytes → List Bytes × Bytes
  print_entries [] printed out = (printed, out)
  print_entries (x ∷ xs) printed out = elim (contains printed x.1.name) [
    | true ↦ print_entries xs printed out
    | false ↦
        print_entries xs (printed ++ x.1.name ∷ []) (out ++ print_type unsigned signed x.0 x.1)
  ]

  print_new_lem :
      (service : ListedService) (types : List ListedType) (rest : List Entry) (printed : List Bytes)
      (out : Bytes)
      → let now = print_new unsigned signed service types printed out in
        print_entries (entries service types ++ rest) printed out ≡ print_entries rest now.0 now.1
  unfolding print_new print_entries
  print_new_lem service [] rest printed out = refl
  print_new_lem service (type ∷ types) rest printed out =
      elim (Bool-cases (contains printed type.name)) [
        | inl old ↦
            rw (old, print_entries, print_new) (print_new_lem service types rest printed out)
        | inr new ↦
            rw (new, print_entries, print_new)
              (print_new_lem service types rest (printed ++ type.name ∷ [])
                (out ++ print_type unsigned signed service type))
      ]

  print_types_entries :
      (services : List ListedService) (printed : List Bytes) (out : Bytes)
      → print_entries (all_types services) printed out
        ≡ print_types unsigned signed services printed out
  unfolding print_types print_entries
  print_types_entries [] printed out = refl
  print_types_entries (service ∷ services) printed out =
      let now = print_new unsigned signed service service.types printed out in
      print_new_lem service service.types (all_types services) printed out
      ∙ print_types_entries services now.0 now.1

  print_entries_lem :
      (xs : List Entry) (printed : List Bytes) (out : Bytes)
      → let fresh = distinct (unprinted printed xs) in
        print_entries xs printed out ≡ (printed ++ names fresh, out ++ texts fresh)
  unfolding print_entries unprinted
  print_entries_lem [] printed out = rw (append-nil printed, append-nil out) refl
  print_entries_lem (x ∷ xs) printed out = elim (Bool-cases (contains printed x.1.name)) [
    | inl old ↦ rw (old, print_entries) (print_entries_lem xs printed out)
    | inr new ↦
        let name = x.1.name in
        let text = print_type unsigned signed x.0 x.1 in
        let fresh = remove name (distinct (unprinted printed xs)) in
        rw (new, print_entries)
          (print_entries_lem xs (printed ++ name ∷ []) (out ++ text)
            ∙ rw (distinct-unprinted_append printed name xs) (
                rw
                  (
                    append_assoc printed (name ∷ []) (names fresh),
                    append_assoc out text (texts fresh),
                  )
                  refl))
  ]

  -- Of the types that the services list, in their order, those are printed that are left when each
  -- later entry of a name is removed, and their names are those that are kept as printed.
  pub print_types-distinct :
      (services : List ListedService)
      → let printed = distinct (all_types services) in
        print_types unsigned signed services [] [] ≡ (names printed, texts printed)
  print_types-distinct services =
      sym (print_types_entries services [] [])
      ∙ print_entries_lem (all_types services) [] []
      ∙ ap (λ (xs : List Entry). (names (distinct xs), texts (distinct xs)))
          (unprinted-nil (all_types services))
