-- ===== src/Server/Dlq/Paths.antt =====
-- Where the files of dead letters lie.
use railway.Base.{
  ℕ, ◌^◌, ◌<◌, ◌≤◌, length, length-append, Bool-cases, inl, inr, true, false, ◌≡◌, ◌≢◌, refl, ◌∙◌,
  ap, sym, subst, List, [], ◌∷◌, ◌++◌, arith,
}
use railway.Base.Int.{pos}
use railway.Text.{Text, codes, is_digit, text_eq, text_eq_iff}
use railway.Text.Print.{print_int}
use railway.Text.Lacks.{Lacks-append, print_int-Lacks, print_int_inj, print_int-digit, split_unique}
use railway.FilePath.{up, resolve}
use railway.FilePath.Names.{NoSlash, IsName}
use railway.FilePath.Laws.{
  resolve-join, resolve_name, resolve-up, append-ne-nil, resolve-join_append,
}
use railway.Config.{ServiceConfig}
use railway.Server.Defs.{Parts}
use railway.Server.Dlq.{file_name, file_path}
use mathlib.Core.List.{append_assoc, append_cancel_right}

IsName-of_digit : (c : ℕ) (s : Text) → is_digit c ≡ true → NoSlash (c ∷ s) → IsName (c ∷ s)
unfolding is_digit text_eq codes
IsName-of_digit c s digit free = record {
  no_slash = free;
  not_empty = λ h. cc;
  not_here = ground arith;
  not_up = ground arith;
}

-- The decimal form of a time, with anything behind it.
IsName-print_int :
    (now : ℕ) (s : Text) → now < 10 ^ 19 → NoSlash s → IsName (print_int (pos now) ++ s)
unfolding is_digit
IsName-print_int now s h free =
    let (c, rest, start, digit) = print_int-digit now h in
    let free' : NoSlash (print_int (pos now) ++ s) =
      Lacks-append b'/' (print_int (pos now)) s (print_int-Lacks b'/' now refl) free in
    let e : print_int (pos now) ++ s ≡ c ∷ (rest ++ s) = rw start in
    subst IsName (sym e) (IsName-of_digit c (rest ++ s) digit (subst NoSlash e free'))

suffix-NoSlash : NoSlash (codes ".json")
unfolding codes
suffix-NoSlash = (refl, (refl, (refl, (refl, (refl, tt)))))

dash-NoSlash : NoSlash (codes "-")
unfolding codes
dash-NoSlash = (refl, tt)

file_name-IsName :
    (now : ℕ) (tx_ref : Text) → now < 10 ^ 19 → NoSlash tx_ref → IsName (file_name (pos now) tx_ref)
unfolding file_name
file_name-IsName now tx_ref h free =
    IsName-print_int now (codes "-" ++ (tx_ref ++ codes ".json")) h (
      Lacks-append b'/' (codes "-") (tx_ref ++ codes ".json") dash-NoSlash
        (Lacks-append b'/' tx_ref (codes ".json") free suffix-NoSlash))

long : (target : Text) → 5 ≤ length (target ++ codes ".json")
unfolding codes
long target = omega (arith, length-append target (codes ".json"))

text_eq_of_length : (s t : Text) → length t < length s → text_eq s t ≡ false
text_eq_of_length s t h = elim (Bool-cases (text_eq s t)) [
  | inl same ↦ absurd (omega (arith, ap length ((text_eq_iff s t).0 same)))
  | inr other ↦ other
]

json-IsName : (target : Text) → NoSlash target → IsName (target ++ codes ".json")
unfolding codes
json-IsName target free = record {
  no_slash = Lacks-append b'/' target (codes ".json") free suffix-NoSlash;
  not_empty = λ h. absurd (omega (arith, ap length h, long target));
  not_here = text_eq_of_length _ _ (omega (arith, long target));
  not_up = text_eq_of_length _ _ (omega (arith, long target));
}

-- The elements of a path that goes up.
spelled_up :
    (d digits target json : Text)
    → d ++ (b'/' ∷ (digits ++ (codes "-" ++ ((codes "/../../" ++ target) ++ json))))
      ≡ (((d ++ (b'/' ∷ (digits ++ codes "-"))) ++ (b'/' ∷ codes "..")) ++ (b'/' ∷ codes ".."))
        ++ (b'/' ∷ (target ++ json))
unfolding codes
spelled_up d digits target json = simp append_assoc

dash_name :
    (now : ℕ) (tx_ref : Text)
    → file_name (pos now) tx_ref ≡ print_int (pos now) ++ (b'-' ∷ (tx_ref ++ codes ".json"))
unfolding file_name codes
dash_name now tx_ref = refl

module _ (p : Parts) (cfg : ServiceConfig) where
  -- With a queue directory, and at a time below 10^19 nanoseconds, which an int64 is, the dead letter
  -- for a reference without a slash is a file directly in the queue directory.
  pub resolve-file_path :
      (now : ℕ) (tx_ref : Text)
      → cfg.dlq_path ≢ []
      → now < 10 ^ 19
      → NoSlash tx_ref
      → resolve (file_path p cfg (pos now) tx_ref)
        ≡ ((resolve cfg.dlq_path).0, file_name (pos now) tx_ref ∷ (resolve cfg.dlq_path).1)
  resolve-file_path now tx_ref path h free =
      resolve-join cfg.dlq_path (file_name (pos now) tx_ref) path
        (file_name-IsName now tx_ref h free)

  -- With a queue directory, and at times below 10^19 nanoseconds, dead letters of different times or
  -- for different references are different files, if the references have no slashes.
  pub file_path_inj :
      (now later : ℕ) (tx_ref other : Text)
      → cfg.dlq_path ≢ []
      → now < 10 ^ 19
      → later < 10 ^ 19
      → NoSlash tx_ref
      → NoSlash other
      → file_path p cfg (pos now) tx_ref ≡ file_path p cfg (pos later) other
      → (now ≡ later) × (tx_ref ≡ other)
  unfolding is_digit
  file_path_inj now later tx_ref other path h k free free' same =
      let led =
        sym (resolve-file_path now tx_ref path h free)
        ∙ ap resolve same
        ∙ resolve-file_path later other path k free' in
      let names : file_name (pos now) tx_ref ≡ file_name (pos later) other = cc led in
      let (times, rest) =
        split_unique b'-' (print_int (pos now)) (print_int (pos later)) (tx_ref ++ codes ".json")
          (other ++ codes ".json") (print_int-Lacks b'-' now refl) (print_int-Lacks b'-' later refl)
          (sym (dash_name now tx_ref) ∙ names ∙ dash_name later other) in
      (print_int_inj now later h k times, append_cancel_right tx_ref other (codes ".json") rest)

  -- With a queue directory whose last element is a name, and at a time below 10^19 nanoseconds, the
  -- dead letter for the reference /../../ with a name behind it lies in the directory above the queue.
  pub file_path_escapes :
      (now : ℕ) (target top : Text) (rest : List Text)
      → cfg.dlq_path ≢ []
      → now < 10 ^ 19
      → NoSlash target
      → (resolve cfg.dlq_path).1 ≡ top ∷ rest
      → text_eq top up ≡ false
      → resolve (file_path p cfg (pos now) (codes "/../../" ++ target))
        ≡ ((resolve cfg.dlq_path).0, (target ++ codes ".json") ∷ rest)
  unfolding file_name
  file_path_escapes now target top rest path h free led down =
      let root = (resolve cfg.dlq_path).0 in
      let first = print_int (pos now) ++ codes "-" in
      let a = cfg.dlq_path ++ (b'/' ∷ first) in
      let b = a ++ (b'/' ∷ up) in
      let c = b ++ (b'/' ∷ up) in
      let n = IsName-print_int now (codes "-") h dash-NoSlash in
      let at_a =
        resolve_name cfg.dlq_path first root (top ∷ rest) path n (ap (λ s. (root, s)) led) in
      let at_b =
        resolve-up a first root (top ∷ rest) (append-ne-nil cfg.dlq_path b'/' first) n.not_up
          at_a in
      let at_c = resolve-up b top root rest (append-ne-nil a b'/' up) down at_b in
      resolve-join_append cfg.dlq_path (file_name (pos now) (codes "/../../" ++ target)) path
      ∙ ap resolve (spelled_up cfg.dlq_path (print_int (pos now)) target (codes ".json"))
      ∙ resolve_name c (target ++ codes ".json") root rest (append-ne-nil b b'/' up)
          (json-IsName target free) at_c
