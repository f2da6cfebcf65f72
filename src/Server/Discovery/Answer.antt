-- ===== src/Server/Discovery/Answer.antt =====
-- What a server answers to a request for its services.
use serialrpc.Base.{
  ℕ, zero, suc, ◌+◌, ◌<◌, ◌≤◌, ◌^◌, ◌%◌, ◌≡◌, ◌∙◌, refl, ◌==◌, Bool, true, List, [], ◌∷◌, ◌++◌,
  length, arith, get_elem?, some, Bool-cases, inl, inr, ==_iff,
}
use serialrpc.Client.Hello.{full_name}
use serialrpc.Io.{Io, Bytes}
use serialrpc.Io.Laws.{Laws}
use serialrpc.Encoding.Marshal.{bool, repeated, Fields, nil, field}
use serialrpc.Server.Discovery.{
  TypeInfo, ServiceDescription, max_full_name_size, find_type, type_id, service_info_views,
}

-- `ListServicesRequest` and `ListServicesResponse`.
abbrev pub request_of : Bool → Fields
request_of full = field 1 (bool full) nil

-- The names of the services are written in full.
abbrev pub joined : ℕ → Bytes → Bytes → Bytes
joined capacity a b = a ++ b

abbrev pub response_of : Bool → List ServiceDescription → Fields
response_of full services = field 1 (repeated (service_info_views joined full services)) nil

-- What an inline string promises: a text that fits is added as it is.
abbrev pub Appends : (ℕ → Bytes → Bytes → Bytes) → Type 0
Appends append =
    (capacity : ℕ) (a b : Bytes) → length a + length b ≤ capacity → append capacity a b ≡ a ++ b

abbrev pub NameFits : ServiceDescription → Type 0
NameFits service = length (full_name service.info) ≤ max_full_name_size

found_first :
    (i a b : ℕ) (t : TypeInfo) (types : List (ℕ × TypeInfo))
    → (a == b) ≡ true
    → suc i < 2 ^ 32
    → find_type i b ((a, t) ∷ types) ≡ i + 1
unfolding find_type
found_first i a b t types e lt =
    let small : suc i % 2 ^ 32 ≡ i + 1 = omega arith in rw (e, small) refl

-- A type that is in the list is found: at the first place that has its address.
find_type_lem :
    (i k a : ℕ) (t : TypeInfo) (types : List (ℕ × TypeInfo))
    → get_elem? types k ≡ some (a, t)
    → i + length types < 2 ^ 32
    → (j : ℕ) × (t' : TypeInfo) × (find_type i a types ≡ i + (j + 1))
      × (get_elem? types j ≡ some (a, t'))
unfolding find_type
find_type_lem i k a t [] e lt = absurd cc
find_type_lem i zero a t ((b, u) ∷ types) e lt =
    let at_front : b ≡ a = cc in
    (0, u, found_first i b a u types ((==_iff b a).1 at_front) (omega arith), rw (at_front) refl)
find_type_lem i (suc k) a t ((b, u) ∷ types) e lt = elim (Bool-cases (b == a)) [
  | inl same ↦
      let at_front : b ≡ a = (==_iff b a).0 same in
      (0, u, found_first i b a u types same (omega arith), rw (at_front) refl)
  | inr other ↦
      let (j, t', found, there) = find_type_lem (suc i) k a t types e (omega arith) in
      (suc j, t', rw (other) (found ∙ omega arith), there)
]

-- The number that a description gives for a type that its list of fewer than 2^32 types has is one
-- more than a place of that type's address in the list.
pub type_id_lem :
    (service : ServiceDescription) (k a : ℕ) (t : TypeInfo)
    → get_elem? service.types k ≡ some (a, t)
    → length service.types < 2 ^ 32
    → (j : ℕ) × (t' : TypeInfo) × (type_id service a ≡ j + 1)
      × (get_elem? service.types j ≡ some (a, t'))
unfolding type_id
type_id_lem service k a t e lt =
    let (j, t', found, there) = find_type_lem 0 k a t service.types e (omega arith) in
    (j, t', found ∙ omega arith, there)
