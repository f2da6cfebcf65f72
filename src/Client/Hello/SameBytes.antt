-- ===== src/Client/Hello/SameBytes.antt =====
-- `==` of two texts.
use serialrpc.Base.{
  ◌==◌, ==_iff, if◌then◌else◌, Bool, true, false, Bool-cases, inl, inr, [], ◌∷◌, ◌≡◌, refl, sym, ap,
  ◌∙◌,
}
use serialrpc.Io.{Bytes}
use serialrpc.Client.Hello.{same_bytes}

pub same_bytes→≡ : (xs ys : Bytes) → same_bytes xs ys ≡ true → xs ≡ ys
unfolding same_bytes
same_bytes→≡ [] [] e = refl
same_bytes→≡ [] (y ∷ ys) e = absurd cc
same_bytes→≡ (x ∷ xs) [] e = absurd cc
same_bytes→≡ (x ∷ xs) (y ∷ ys) e = elim (Bool-cases (x == y)) [
  | inl same ↦
      let tail : same_bytes xs ys ≡ true =
        ap (λ (b : Bool). if b then same_bytes xs ys else false) (sym same) ∙ e in
      let rest = same_bytes→≡ xs ys tail in let first : x ≡ y = (==_iff x y).0 same in cc
  | inr other ↦ absurd (
      let no : false ≡ true =
        ap (λ (b : Bool). if b then same_bytes xs ys else false) (sym other) ∙ e in
      cc)
]
