-- ===== src/FilePath/Names.antt =====
-- The elements of a path, and the stacks that a path leads to.
use railway.Base.{
  ℕ, Bool, true, false, ◌≡◌, ◌≢◌, refl, List, [], ◌∷◌, ◌==◌, ◌||◌, Bool-cases, inl, inr,
}
use railway.Text.{Text, codes, is_empty, text_eq, text_eq_refl}
use railway.Text.Lacks.{Lacks}
use railway.FilePath.{push, elements, up, parent, enter, walk, is_rooted, resolve}

-- No slash stands in the text.
abbrev pub NoSlash : Text → Type 0
NoSlash s = Lacks b'/' s

abbrev pub All {ℓ κ} : {A : Type ℓ} → (A → Type κ) → List A → Type κ
All P [] = Unit
All P (x ∷ xs) = P x × All P xs

-- An element that stays: it is not empty, neither . nor .., and has no slash.
pub record IsName (e : Text) : Type 0 where
  pub no_slash : NoSlash e
  pub not_empty : e ≢ []
  pub not_here : text_eq e (codes ".") ≡ false
  pub not_up : text_eq e up ≡ false

IsName-of_tests :
    (e : Text)
    → NoSlash e
    → (is_empty e || text_eq e (codes ".")) ≡ false
    → text_eq e up ≡ false
    → IsName e
IsName-of_tests [] free kept down = cc
IsName-of_tests (c ∷ e) free kept down = record {
  no_slash = free;
  not_empty = cc;
  not_here = kept;
  not_up = down;
}

-- Names, above any number of .. in a path that is not from the root.
pub data IsNormal (rooted : Bool) : List Text → Type 0 where
  nothing : IsNormal rooted []
  above :
      {stack : List Text} → rooted ≡ false → All (λ e. e ≡ up) stack → IsNormal rooted (up ∷ stack)
  name :
      {e : Text} {stack : List Text}
      → IsName e
      → IsNormal rooted stack
      → IsNormal rooted (e ∷ stack)

push-NoSlash :
    (c : ℕ) (es : List Text) → (c == b'/') ≡ false → All NoSlash es → All NoSlash (push c es)
push-NoSlash c [] h free = ((h, tt), tt)
push-NoSlash c (e ∷ es) h (f, free) = ((h, f), free)

elements-NoSlash : (p : Text) → All NoSlash (elements p)
unfolding elements
elements-NoSlash [] = (tt, tt)
elements-NoSlash (c ∷ p) = elim (Bool-cases (c == b'/')) [
  | inl slash ↦ rw slash (tt, elements-NoSlash p)
  | inr other ↦ rw other (push-NoSlash c (elements p) other (elements-NoSlash p))
]

parent-IsNormal :
    (rooted : Bool) {stack : List Text}
    → IsNormal rooted stack
    → IsNormal rooted (parent rooted stack)
parent-IsNormal true nothing = nothing
parent-IsNormal false nothing = above refl tt
parent-IsNormal rooted (above r ups) = rw (text_eq_refl up) (above r (refl, ups))
parent-IsNormal rooted (name n normal) = rw n.not_up normal

enter-IsNormal :
    (rooted : Bool) {stack : List Text} (e : Text)
    → NoSlash e
    → IsNormal rooted stack
    → IsNormal rooted (enter rooted stack e)
unfolding enter
enter-IsNormal rooted e free normal = elim (Bool-cases (is_empty e || text_eq e (codes "."))) [
  | inl skipped ↦ rw skipped normal
  | inr kept ↦ elim (Bool-cases (text_eq e up)) [
    | inl upwards ↦ rw (kept, upwards) (parent-IsNormal rooted normal)
    | inr down ↦ rw (kept, down) (name (IsName-of_tests e free kept down) normal)
  ]
]

pub walk-IsNormal :
    (rooted : Bool) (es : List Text) {stack : List Text}
    → All NoSlash es
    → IsNormal rooted stack
    → IsNormal rooted (walk rooted stack es)
walk-IsNormal rooted [] free normal = normal
walk-IsNormal rooted (e ∷ es) (f, free) normal =
    walk-IsNormal rooted es free (enter-IsNormal rooted e f normal)

-- Every path leads to a normal stack.
pub resolve-IsNormal : (p : Text) → IsNormal (resolve p).0 (resolve p).1
unfolding resolve
resolve-IsNormal p = walk-IsNormal (is_rooted p) (elements p) (elements-NoSlash p) nothing
