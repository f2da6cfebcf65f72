-- ===== src/Cli/Method/Name.antt =====
-- The name of a method is split where it was put together.
use serialrpc.Base.{
  ℕ, suc, ◌+◌, ◌<◌, ◌≡◌, refl, ap, ◌==◌, ==_refl, false, some, none, [], ◌∷◌, ◌++◌, length,
  length-append, take, drop, All, arith,
}
use serialrpc.Io.{Bytes}
use serialrpc.Cli.Method.{rfind, split_at, separator_of, split_method}

abbrev pub IsFree : ℕ → Bytes → Type 0
IsFree c bytes = All (λ b. (b == c) ≡ false) bytes

rfind-IsFree : (c : ℕ) (bytes : Bytes) → IsFree c bytes → rfind c bytes ≡ none
unfolding rfind
rfind-IsFree c [] h = refl
rfind-IsFree c (b ∷ bytes) (h, hs) = rw (rfind-IsFree c bytes hs, h, rfind) refl

-- The last separator is the one behind which none follows.
rfind-append :
    (c : ℕ) (front back : Bytes) → IsFree c back → rfind c (front ++ c ∷ back) ≡ some (length front)
unfolding rfind
rfind-append c [] back h = rw (rfind, rfind-IsFree c back h, ==_refl c) refl
rfind-append c (b ∷ front) back h = rw (rfind-append c front back h, rfind) refl

IsFree-append : (c : ℕ) (xs ys : Bytes) → IsFree c xs → IsFree c ys → IsFree c (xs ++ ys)
IsFree-append c [] ys h k = k
IsFree-append c (x ∷ xs) ys (e, h) k = (e, IsFree-append c xs ys h k)

take-length : (xs ys : Bytes) → take (length xs) (xs ++ ys) ≡ xs
take-length [] ys = refl
take-length (x ∷ xs) ys = ap (◌∷◌ x) (take-length xs ys)

drop-length : (xs ys : Bytes) (c : ℕ) → drop (suc (length xs)) (xs ++ c ∷ ys) ≡ ys
drop-length [] ys c = refl
drop-length (x ∷ xs) ys c = drop-length xs ys c

split_at-joined :
    (service method : Bytes) (c : ℕ)
    → 0 < length service
    → 0 < length method
    → split_at (service ++ c ∷ method) (some (length service)) ≡ some (service, method)
unfolding split_at
split_at-joined service method c s m =
    rw (not_first, not_last, next, take-length service (c ∷ method), drop-length service method c)
      refl
  where
    not_first : (length service == 0) ≡ false
    not_first = ground arith

    not_last : (length service + 1 == length (service ++ c ∷ method)) ≡ false
    not_last = rw (length-append service (c ∷ method)) (ground arith)

    next : length service + 1 ≡ suc (length service)
    next = omega arith

-- A separator that tells the method from the service: a slash, if the method has none, and a dot, if
-- neither has a slash and the method has no dot.
pub data Joins (service method : Bytes) : ℕ → Type 0 where
  slash : IsFree 0x2f method → Joins service method 0x2f
  dot : IsFree 0x2f service → IsFree 0x2f method → IsFree 0x2e method → Joins service method 0x2e

-- A service and a method, neither of them empty, are found again in their name behind a separator that
-- tells them apart.
pub split_method-joined :
    (service method : Bytes) (c : ℕ)
    → 0 < length service
    → 0 < length method
    → Joins service method c
    → split_method (service ++ c ∷ method) ≡ some (service, method)
unfolding split_method separator_of
split_method-joined service method c s m (slash free) =
    rw (rfind-append 0x2f service method free) (split_at-joined service method 0x2f s m)
split_method-joined service method c s m (dot whole free no_dot) =
    rw
      (
        rfind-IsFree 0x2f (service ++ 0x2e ∷ method)
            (IsFree-append 0x2f service (0x2e ∷ method) whole (refl, free)),
        rfind-append 0x2e service method no_dot,
      )
      (split_at-joined service method 0x2e s m)
