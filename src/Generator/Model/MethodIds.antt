-- ===== src/Generator/Model/MethodIds.antt =====
-- The IDs of the methods of a service that is accepted.
use mathlib.Core.List.{Permᴰ}
use serialrpc.Base.{
  ℕ, ◌<◌, ◌≤◌, ◌≡◌, ◌≢◌, ◌⊎◌, refl, sym, ap, subst, ◌∙◌, ◌==◌, ==_iff, true, Bool-cases, Option,
  Option-cases, inl, inr, some, none, List, [], ◌∷◌, ◌++◌, All, arith,
}
use serialrpc.Io.{Bytes}
use serialrpc.Generator.Uuid.{uuid_string_to_bytes}
use serialrpc.Generator.Model.{
  TypeDescriptor, EchoRoot, unless_void, method_with, GeneratorError, Checked, accepted, thrown,
  MethodDescriptor, EchoMethod, echo_method, with_id, echo_methods, ServiceDescriptor, EchoService,
  with_methods, echo_service,
}

-- No two IDs are alike, and none is 0.
abbrev pub DistinctIds : List EchoMethod → Type 0
DistinctIds [] = Unit {0}
DistinctIds (method ∷ methods) =
    (method.method_id ≢ 0)
    × All (λ (m : EchoMethod). method.method_id ≢ m.method_id) methods
    × DistinctIds methods

with_id-none :
    (id : ℕ) (methods : List EchoMethod)
    → with_id id methods ≡ none
    → All (λ (m : EchoMethod). m.method_id ≢ id) methods
unfolding with_id
with_id-none id [] e = tt
with_id-none id (m ∷ methods) e = elim (Bool-cases (m.method_id == id)) [
  | inl same ↦ let found : some m ≡ none = rw (same) at e in absurd cc
  | inr other ↦
      let later : with_id id methods ≡ none = rw (other) at e in
      (
        (λ same. let hit = (==_iff m.method_id id).1 same in absurd cc),
        with_id-none id methods later,
      )
]

snoc-DistinctIds :
    (methods : List EchoMethod) (method : EchoMethod)
    → DistinctIds methods
    → method.method_id ≢ 0
    → All (λ (m : EchoMethod). m.method_id ≢ method.method_id) methods
    → DistinctIds (methods ++ method ∷ [])
snoc-DistinctIds [] method h nonzero fresh = (nonzero, tt, tt)
snoc-DistinctIds (m ∷ methods) method (mz, others, h) nonzero (differs, fresh) =
    (mz, All-snoc _ methods method others differs, snoc-DistinctIds methods method h nonzero fresh)
  where
    All-snoc :
        (P : EchoMethod → Type 0) (xs : List EchoMethod) (x : EchoMethod)
        → All P xs
        → P x
        → All P (xs ++ x ∷ [])
    All-snoc P [] x h p = (p, tt)
    All-snoc P (y ∷ ys) x (q, h) p = (q, All-snoc P ys x h p)

abbrev accepted_id : Checked EchoMethod → ℕ
accepted_id (accepted method) = method.method_id
accepted_id (thrown e) = 0

thrown_not_accepted : {A : Type 0} (x : GeneratorError) (a : A) → thrown x ≡ accepted a → ⊥
thrown_not_accepted x a e = cc

Checked-cases :
    {A : Type 0} (c : Checked A)
    → ((x : GeneratorError) × (c ≡ thrown x)) ⊎ ((a : A) × (c ≡ accepted a))
Checked-cases (thrown x) = inl (x, refl)
Checked-cases (accepted a) = inr (a, refl)

method_with-id :
    (d : MethodDescriptor) (parameter result : Checked (Option TypeDescriptor))
    (method : EchoMethod)
    → method_with d parameter result ≡ accepted method
    → d.method_id ≡ method.method_id
unfolding method_with
method_with-id d (thrown x) result method e = absurd (thrown_not_accepted _ _ e)
method_with-id d (accepted p) (thrown x) method e = absurd (thrown_not_accepted _ _ e)
method_with-id d (accepted p) (accepted r) method e = ap accepted_id e

echo_method-nonzero :
    (void : Bytes) (root : EchoRoot) (service : Bytes) (d : MethodDescriptor) (method : EchoMethod)
    → echo_method void root service d ≡ accepted method
    → method.method_id ≢ 0
unfolding echo_method
echo_method-nonzero void root service d method e = elim (Bool-cases (d.method_id == 0)) [
  | inl missing ↦ absurd (thrown_not_accepted _ _ (rw (missing) at e))
  | inr given ↦ λ none.
      let id : d.method_id ≡ method.method_id =
        method_with-id d (unless_void void root d.input_type) (unless_void void root d.output_type)
          method (rw (given) at e) in
      let missing : (d.method_id == 0) ≡ true = (==_iff d.method_id 0).1 (id ∙ none) in cc
]

echo_methods-DistinctIds :
    (void : Bytes) (root : EchoRoot) (service : Bytes) (descriptors : List MethodDescriptor)
    (methods made : List EchoMethod)
    → DistinctIds methods
    → echo_methods void root service methods descriptors ≡ accepted made
    → DistinctIds made
unfolding echo_methods
echo_methods-DistinctIds void root service [] methods made h e =
    let same : methods ≡ made = cc in subst DistinctIds same h
echo_methods-DistinctIds void root service (d ∷ descriptors) methods made h e =
    elim (Checked-cases (echo_method void root service d)) [
      | inl (x, bad) ↦ absurd (thrown_not_accepted _ _ (rw (echo_methods, bad) at e))
      | inr (method, made_one) ↦ elim (Option-cases (with_id method.method_id methods)) [
        | inr (previous, twice) ↦
            absurd (thrown_not_accepted _ _ (rw (echo_methods, made_one, twice) at e))
        | inl fresh ↦
            echo_methods-DistinctIds void root service descriptors (methods ++ method ∷ []) made
              (snoc-DistinctIds methods method h
                (echo_method-nonzero void root service d method made_one)
                (with_id-none method.method_id methods fresh))
              (rw (echo_methods, made_one, fresh) at e)
      ]
    ]

-- The methods of a service that the generator accepts have IDs that are not 0 and are all different.
pub echo_service-DistinctIds :
    (void : Bytes) (root : EchoRoot) (d : ServiceDescriptor) (service : EchoService)
    → echo_service void root d ≡ accepted service
    → DistinctIds service.methods
unfolding echo_service with_methods
echo_service-DistinctIds void root d service e = elim (Option-cases (uuid_string_to_bytes d.uuid)) [
  | inl bad ↦ absurd (thrown_not_accepted _ _ (rw (echo_service, bad) at e))
  | inr (uuid, read) ↦ elim (Checked-cases (echo_methods void root d.name [] d.methods)) [
    | inl (x, bad) ↦ absurd (thrown_not_accepted _ _ (rw (echo_service, read, bad) at e))
    | inr (methods, made) ↦
        let same : methods ≡ service.methods =
          ap accepted_methods (rw (echo_service, read, made) at e) in
        subst DistinctIds same
          (echo_methods-DistinctIds void root d.name d.methods [] methods tt made)
  ]
]
  where
    accepted_methods : Checked EchoService → List EchoMethod
    accepted_methods (accepted service) = service.methods
    accepted_methods (thrown x) = []

All-Permᴰ : (P : EchoMethod → Type 0) {xs ys : List EchoMethod} → Permᴰ xs ys → All P xs → All P ys
All-Permᴰ P Permᴰ.nil h = tt
All-Permᴰ P (Permᴰ.cons e p) (x, h) = (subst P e x, All-Permᴰ P p h)
All-Permᴰ P (Permᴰ.swap e f) (x, (y, h)) = (subst P f y, (subst P e x, h))
All-Permᴰ P (Permᴰ.trans p q) h = All-Permᴰ P q (All-Permᴰ P p h)

DistinctIds-Permᴰ : {xs ys : List EchoMethod} → Permᴰ xs ys → DistinctIds xs → DistinctIds ys
DistinctIds-Permᴰ Permᴰ.nil h = tt
DistinctIds-Permᴰ (Permᴰ.cons {a = a} {b = b} e p) (nonzero, others, h) =
    let id : a.method_id ≡ b.method_id = ap (λ (m : EchoMethod). m.method_id) e in
    (
      rw (id) at nonzero,
      All-Permᴰ (λ m. b.method_id ≢ m.method_id) p (rw (id) at others),
      DistinctIds-Permᴰ p h,
    )
DistinctIds-Permᴰ (Permᴰ.swap {a = a} {b = b} {a' = a'} {b' = b'} e f) (az, (ab, ha), (bz, hb, h)) =
    let first : a.method_id ≡ b'.method_id = ap (λ (m : EchoMethod). m.method_id) e in
    let second : b.method_id ≡ a'.method_id = ap (λ (m : EchoMethod). m.method_id) f in
    (
      rw (second) at bz,
      ((λ same. ab (first ∙ sym same ∙ sym second)), rw (second) at hb),
      (rw (first) at az, rw (first) at ha, h),
    )
DistinctIds-Permᴰ (Permᴰ.trans p q) h = DistinctIds-Permᴰ q (DistinctIds-Permᴰ p h)

abbrev pub Ordered : List EchoMethod → Type 0
Ordered [] = Unit {0}
Ordered (method ∷ methods) =
    All (λ (m : EchoMethod). method.method_id ≤ m.method_id) methods × Ordered methods

-- What `std::sort` by ID returns of a list: its methods, none before one with a smaller ID.
pub record IsSortOf (methods table : List EchoMethod) : Type 0 where
  pub same : Permᴰ methods table
  pub ordered : Ordered table

-- By ID, and no two alike.
abbrev pub Increasing : List EchoMethod → Type 0
Increasing [] = Unit {0}
Increasing (method ∷ methods) =
    All (λ (m : EchoMethod). method.method_id < m.method_id) methods × Increasing methods

strictly :
    (x : ℕ) (methods : List EchoMethod)
    → All (λ (m : EchoMethod). x ≤ m.method_id) methods
    → All (λ (m : EchoMethod). x ≢ m.method_id) methods
    → All (λ (m : EchoMethod). x < m.method_id) methods
strictly x [] h k = tt
strictly x (m ∷ methods) (le, h) (ne, k) = (ground arith, strictly x methods h k)

Ordered-Increasing :
    (table : List EchoMethod) → Ordered table → DistinctIds table → Increasing table
Ordered-Increasing [] o d = tt
Ordered-Increasing (m ∷ table) (le, o) (nonzero, ne, d) =
    (strictly m.method_id table le ne, Ordered-Increasing table o d)

-- The methods of a service that the generator accepts, sorted by their IDs, stand in strictly
-- increasing order, of IDs that are not 0 and all different.
pub echo_service-Increasing :
    (void : Bytes) (root : EchoRoot) (d : ServiceDescriptor) (service : EchoService)
    (table : List EchoMethod)
    → echo_service void root d ≡ accepted service
    → IsSortOf service.methods table
    → Increasing table × DistinctIds table
echo_service-Increasing void root d service table e sorted =
    let distinct = DistinctIds-Permᴰ sorted.same (echo_service-DistinctIds void root d service e) in
    (Ordered-Increasing table sorted.ordered distinct, distinct)
