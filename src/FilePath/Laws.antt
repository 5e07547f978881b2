-- ===== src/FilePath/Laws.antt =====
-- Where a cleaned path leads, and where a joined one does.
use railway.Base.{
  ℕ, Bool, true, false, ◌≡◌, ◌≢◌, refl, ◌∙◌, ap, List, [], ◌∷◌, ◌++◌, ◌==◌, Bool-cases, inl, inr,
}
use railway.Text.{Text, codes, is_empty_of_ne, text_eq}
use railway.FilePath.{
  push, elements, up, enter, walk, is_rooted, resolve, spell, render, clean, join,
}
use railway.FilePath.Names.{NoSlash, All, IsName, IsNormal, nothing, above, name, resolve-IsNormal}

elements_of_name : (e : Text) → NoSlash e → elements e ≡ e ∷ []
unfolding elements
elements_of_name [] free = refl
elements_of_name (c ∷ e) (h, free) = rw (h, elements_of_name e free)

push-append :
    (c : ℕ) (es : List Text) (x : Text) → es ≢ [] → push c (es ++ x ∷ []) ≡ push c es ++ x ∷ []
push-append c [] x h = absurd (h refl)
push-append c (e ∷ es) x h = refl

push-ne-nil : (c : ℕ) (es : List Text) → push c es ≢ []
push-ne-nil c [] h = cc
push-ne-nil c (e ∷ es) h = cc

elements-ne-nil : (p : Text) → elements p ≢ []
unfolding elements
elements-ne-nil [] = λ h. cc
elements-ne-nil (c ∷ p) = elim (Bool-cases (c == b'/')) [
  | inl slash ↦ rw slash (λ h. cc)
  | inr other ↦ rw other (push-ne-nil c (elements p))
]

-- A last element.
pub elements-append : (p e : Text) → NoSlash e → elements (p ++ (b'/' ∷ e)) ≡ elements p ++ e ∷ []
unfolding elements
elements-append [] e free = rw (elements_of_name e free)
elements-append (c ∷ p) e free = elim (Bool-cases (c == b'/')) [
  | inl slash ↦ rw (slash, elements-append p e free)
  | inr other ↦
      rw (other, elements-append p e free) (push-append c (elements p) e (elements-ne-nil p))
]

walk-append :
    (rooted : Bool) (stack es : List Text) (e : Text)
    → walk rooted stack (es ++ e ∷ []) ≡ enter rooted (walk rooted stack es) e
walk-append rooted stack [] e = refl
walk-append rooted stack (x ∷ es) e = walk-append rooted (enter rooted stack x) es e

pub enter-IsName :
    (rooted : Bool) (stack : List Text) (e : Text) → IsName e → enter rooted stack e ≡ e ∷ stack
unfolding enter
enter-IsName rooted stack e n = rw (is_empty_of_ne e n.not_empty, n.not_here, n.not_up)

enter-above : (stack : List Text) → All (λ e. e ≡ up) stack → enter false stack up ≡ up ∷ stack
unfolding enter codes text_eq
enter-above [] ups = refl
enter-above (e ∷ stack) (same, ups) = rw same

ups-IsNormal : (stack : List Text) → All (λ e. e ≡ up) stack → IsNormal false stack
ups-IsNormal [] ups = nothing
ups-IsNormal (e ∷ stack) (same, ups) = rw same (above refl ups)

-- What a normal stack was built by.
record IsTop (rooted : Bool) (e : Text) (stack : List Text) : Type 0 where
  entered : enter rooted stack e ≡ e ∷ stack
  no_slash : NoSlash e
  not_empty : e ≢ []
  normal : IsNormal rooted stack

up-NoSlash : NoSlash up
unfolding codes
up-NoSlash = (refl, (refl, tt))

up-ne-nil : up ≢ []
unfolding codes
up-ne-nil h = cc

IsNormal-IsTop :
    (rooted : Bool) {e : Text} {stack : List Text}
    → IsNormal rooted (e ∷ stack)
    → IsTop rooted e stack
IsNormal-IsTop true (above r ups) = cc
IsNormal-IsTop false {stack = stack} (above r ups) = record {
  entered = enter-above stack ups;
  no_slash = up-NoSlash;
  not_empty = up-ne-nil;
  normal = ups-IsNormal stack ups;
}
IsNormal-IsTop rooted {e} {stack} (name n normal) = record {
  entered = enter-IsName rooted stack e n;
  no_slash = n.no_slash;
  not_empty = n.not_empty;
  normal = normal;
}

-- The elements of a spelled stack rebuild it.
walk-spell :
    (rooted : Bool) (e : Text) (stack : List Text)
    → IsNormal rooted (e ∷ stack)
    → walk rooted [] (elements (spell e stack)) ≡ e ∷ stack
walk-spell rooted e [] normal =
    let t = IsNormal-IsTop rooted normal in rw (elements_of_name e t.no_slash) t.entered
walk-spell rooted e (f ∷ stack) normal =
    let t = IsNormal-IsTop rooted normal in
    rw
      (
        elements-append (spell f stack) e t.no_slash,
        walk-append rooted [] (elements (spell f stack)) e,
        walk-spell rooted f stack t.normal,
      )
      t.entered

-- It does not begin with a slash.
spell_start :
    (rooted : Bool) (e : Text) (stack : List Text)
    → IsNormal rooted (e ∷ stack)
    → (c : ℕ) × (s : Text) × (spell e stack ≡ c ∷ s) × ((c == b'/') ≡ false)
spell_start rooted [] [] normal = absurd ((IsNormal-IsTop rooted normal).not_empty refl)
spell_start rooted (c ∷ s) [] normal = (c, s, refl, (IsNormal-IsTop rooted normal).no_slash.0)
spell_start rooted e (f ∷ stack) normal =
    let (c, s, same, h) = spell_start rooted f stack (IsNormal-IsTop rooted normal).normal in
    (c, s ++ (b'/' ∷ e), rw same, h)

resolve_here : resolve (codes ".") ≡ (false, [])
unfolding resolve elements enter codes text_eq
resolve_here = refl

resolve_root : resolve (codes "/") ≡ (true, [])
unfolding resolve elements enter codes text_eq
resolve_root = refl

resolve_rooted :
    (p : Text) (stack : List Text)
    → walk true [] (elements p) ≡ stack
    → resolve (b'/' ∷ p) ≡ (true, stack)
unfolding resolve elements enter
resolve_rooted p stack led = rw led

resolve_unrooted :
    (p : Text) (stack : List Text)
    → is_rooted p ≡ false
    → walk false [] (elements p) ≡ stack
    → resolve p ≡ (false, stack)
unfolding resolve
resolve_unrooted p stack h led = rw (h, led)

-- A normal stack is where its text leads.
pub resolve-render :
    (rooted : Bool) (stack : List Text)
    → IsNormal rooted stack
    → resolve (render (rooted, stack)) ≡ (rooted, stack)
resolve-render true [] normal = resolve_root
resolve-render false [] normal = resolve_here
resolve-render true (e ∷ stack) normal =
    resolve_rooted (spell e stack) (e ∷ stack) (walk-spell true e stack normal)
resolve-render false (e ∷ stack) normal =
    let (c, s, same, h) = spell_start false e stack normal in
    resolve_unrooted (spell e stack) (e ∷ stack) (ap is_rooted same ∙ h)
      (walk-spell false e stack normal)

-- Cleaning a path does not change where it leads.
pub resolve-clean : (p : Text) → resolve (clean p) ≡ resolve p
unfolding clean
resolve-clean p = resolve-render (resolve p).0 (resolve p).1 (resolve-IsNormal p)

is_rooted-append : (a b : Text) → a ≢ [] → is_rooted (a ++ b) ≡ is_rooted a
is_rooted-append [] b h = absurd (h refl)
is_rooted-append (c ∷ a) b h = refl

-- A last element of a path is entered from where the rest leads.
pub resolve-append :
    (a e : Text)
    → a ≢ []
    → NoSlash e
    → resolve (a ++ (b'/' ∷ e)) ≡ ((resolve a).0, enter (resolve a).0 (resolve a).1 e)
unfolding resolve
resolve-append a e h free =
    rw (is_rooted-append a (b'/' ∷ e) h, elements-append a e free, walk-append)

-- A name that is joined to a path leads to the place of that name in the path's directory.
pub resolve-join :
    (a e : Text) → a ≢ [] → IsName e → resolve (join a e) ≡ ((resolve a).0, e ∷ (resolve a).1)
unfolding join
resolve-join a e h n = rw (is_empty_of_ne a h) (
    resolve-clean (a ++ (b'/' ∷ e))
    ∙ resolve-append a e h n.no_slash
    ∙ ap (λ stack. ((resolve a).0, stack)) (enter-IsName (resolve a).0 (resolve a).1 e n))

pub resolve_name :
    (a e : Text) (rooted : Bool) (stack : List Text)
    → a ≢ []
    → IsName e
    → resolve a ≡ (rooted, stack)
    → resolve (a ++ (b'/' ∷ e)) ≡ (rooted, e ∷ stack)
resolve_name a e rooted stack h n led =
    resolve-append a e h n.no_slash
    ∙ ap (λ (r : Bool × List Text). (r.0, enter r.0 r.1 e)) led
    ∙ ap (λ s. (rooted, s)) (enter-IsName rooted stack e n)

enter-up :
    (rooted : Bool) (top : Text) (stack : List Text)
    → text_eq top up ≡ false
    → enter rooted (top ∷ stack) up ≡ stack
unfolding enter codes text_eq
enter-up rooted top stack h = rw h

-- .. leads to the directory above.
pub resolve-up :
    (a top : Text) (rooted : Bool) (stack : List Text)
    → a ≢ []
    → text_eq top up ≡ false
    → resolve a ≡ (rooted, top ∷ stack)
    → resolve (a ++ (b'/' ∷ up)) ≡ (rooted, stack)
resolve-up a top rooted stack h down led =
    resolve-append a up h up-NoSlash
    ∙ ap (λ (r : Bool × List Text). (r.0, enter r.0 r.1 up)) led
    ∙ ap (λ s. (rooted, s)) (enter-up rooted top stack down)

pub append-ne-nil : (a : Text) (c : ℕ) (b : Text) → a ++ (c ∷ b) ≢ []
append-ne-nil [] c b h = cc
append-ne-nil (x ∷ a) c b h = cc

-- Join cleans the two with a slash between them.
pub resolve-join_append : (a b : Text) → a ≢ [] → resolve (join a b) ≡ resolve (a ++ (b'/' ∷ b))
unfolding join
resolve-join_append a b h = rw (is_empty_of_ne a h) (resolve-clean (a ++ (b'/' ∷ b)))
