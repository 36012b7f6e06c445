-- ===== src/Naming/Fresh.antt =====
-- Whether the name of a new certificate is free.
use lemur.Prelude.{
  ℕ, String, ◌+◌, ◌≤◌, true, false, ◌≡◌, refl, sym, ap, subst, ◌∙◌, none, some, List, [], ◌∷◌, ◌==◌,
  nat_eq, string_eq, select, contains, all, all-contains, contains-selection, arith, eq_iff,
  Bool-cases, Option-cases, inl, inr,
}
use lemur.Prelude.Text.{join, len, concat, concat_empty, split_at_last, split_at_last-concat}
use lemur.Naming.{Site, get_sequence, max_end, scan, next_name, with_serial, get_or_increase_name}

-- A root with a number of other than eight digits is taken apart again, where `int` reads what `str`
-- writes, which has no hyphen.
pub get_sequence_roundtrip :
    (w : Site) (root : String) (n : ℕ)
    → w.int (w.str n) ≡ some n
    → split_at_last b'-' (w.str n) ≡ none
    → (len (w.str n) == 8) ≡ false
    → get_sequence w (join (root ∷ "-" ∷ w.str n ∷ [])) ≡ (root, some n)
unfolding get_sequence
get_sequence_roundtrip w root n reads plain short = rw (concat_empty (w.str n)) (
    rw (split_at_last-concat b'-' "-" root (w.str n) refl plain, get_sequence)
      (rw (reads, short) refl))

-- The names that were found all have one root, which the loop ends with.
scan-root :
    (w : Site) (root : String) (names : List String) (top : ℕ)
    → all (λ n. (get_sequence w n).0 == root) names ≡ true
    → (scan w names (root, top)).0 ≡ root
unfolding scan all
scan-root w root [] top h = refl
scan-root w root (n ∷ names) top h =
    ap (λ r. (scan w names (r, max_end top (get_sequence w n).1)).0)
      ((eq_iff (get_sequence w n).0 root).0 (ground arith))
    ∙ scan-root w root names (max_end top (get_sequence w n).1) (ground arith)

-- The largest number is not below the one it starts from, nor below that of a name that was found.
scan-top : (w : Site) (names : List String) (s : String × ℕ) → s.1 ≤ (scan w names s).1
unfolding scan
scan-top w [] s = omega arith
scan-top w (n ∷ names) (root, top) =
    let ih = scan-top w names ((get_sequence w n).0, max_end top (get_sequence w n).1) in
    elim (Option-cases (get_sequence w n).1) [
      | inl e ↦ ground (arith, ih)
      | inr (k, e) ↦ ground (arith, ih)
    ]

scan-max :
    (w : Site) (name root : String) (k : ℕ) (names : List String) (s : String × ℕ)
    → contains name names ≡ true
    → get_sequence w name ≡ (root, some k)
    → k ≤ (scan w names s).1
unfolding scan contains
scan-max w name root k [] s h e = absurd (ground (arith, h))
scan-max w name root k (n ∷ names) (r, top) h e = elim (Bool-cases (n == name)) [
  | inr o ↦ scan-max w name root k names _ (ground (arith, o, h)) e
  | inl o ↦ omega (
    arith,
    scan-top w names ((get_sequence w n).0, max_end top (get_sequence w n).1),
    counted (sequence ((eq_iff n name).0 o)),
  )
]
  where
    sequence : n ≡ name → (get_sequence w n).1 ≡ some k
    sequence same = ap (λ x. (get_sequence w x).1) same ∙ ap (λ x. x.1) e

    counted : (get_sequence w n).1 ≡ some k → k ≤ max_end top (get_sequence w n).1
    counted f = rw f (ground arith)

-- The text is no name of the table, since its number would have been counted.
next_name_free :
    (w : Site) (root : String) (names : List String)
    → ((p t : String) → w.ilike p (concat p t) ≡ true)
    → ((n : ℕ) → w.int (w.str n) ≡ some n)
    → ((n : ℕ) → split_at_last b'-' (w.str n) ≡ none)
    → (top : ℕ) → (len (w.str (top + 1)) == 8) ≡ false
    → (r : String) → (scan w (select (w.ilike root) names) (r, 0)).1 ≡ top
    → contains (next_name w (root, top)) names ≡ false
next_name_free w root names likes reads plain top short r counted =
    elim (Bool-cases (contains (next_name w (root, top)) names)) [
      | inr e ↦ e
      | inl e ↦ absurd (
          omega (
            arith,
            counted,
            scan-max w (next_name w (root, top)) root (top + 1) (select (w.ilike root) names) (r, 0)
                (contains-selection (w.ilike root) (next_name w (root, top)) names
                  ∙ rw (e, likes root _) refl)
                (get_sequence_roundtrip w root (top + 1) (reads (top + 1)) (plain (top + 1)) short),
          ))
    ]

-- The name that is chosen is not in the table, where the certificates whose names start with the name
-- and serial number all have just that as their root, and the number added does not have eight
-- digits. What is asked of `int`, `str` and `ilike` is that a number is read back, has no hyphen, and
-- that a text is found by its beginning.
pub name_is_free :
    (w : Site) (name serial : String) (names : List String)
    → ((p t : String) → w.ilike p (concat p t) ≡ true)
    → ((n : ℕ) → w.int (w.str n) ≡ some n)
    → ((n : ℕ) → split_at_last b'-' (w.str n) ≡ none)
    → all
        (λ n. (get_sequence w n).0 == with_serial name serial)
        (select (w.ilike (with_serial name serial)) names)
      ≡ true
    → (len (
          w.str (
            (scan w
              (select (w.ilike (with_serial name serial)) names)
              (with_serial name serial, 0)).1
            + 1))
        == 8)
      ≡ false
    → contains (get_or_increase_name w name serial names) names ≡ false
unfolding get_or_increase_name
name_is_free w name serial names likes reads plain roots short =
    elim (Bool-cases (contains name names)) [
      | inr e ↦ rw (e, get_or_increase_name) e
      | inl e ↦ elim (Bool-cases (contains sn names)) [
        | inr f ↦ rw (e, f, get_or_increase_name) f
        | inl f ↦ rw (e, f, get_or_increase_name) (third f)
      ]
    ]
  where
    sn : String
    sn = with_serial name serial

    matching : List String
    matching = select (w.ilike sn) names

    itself : w.ilike sn sn ≡ true
    itself = ap (w.ilike sn) (sym (concat_empty sn)) ∙ likes sn ""

    rooted : contains sn names ≡ true → (get_sequence w sn).0 ≡ sn
    rooted f = (eq_iff (get_sequence w sn).0 sn).0 (
        all-contains (λ n. (get_sequence w n).0 == sn) sn matching
          (contains-selection (w.ilike sn) sn names ∙ rw (f, itself) refl) roots)

    free : contains (next_name w (scan w matching (sn, 0))) names ≡ false
    free =
        subst (λ r. contains (next_name w (r, (scan w matching (sn, 0)).1)) names ≡ false)
          (sym (scan-root w sn matching 0 roots))
          (next_name_free w sn names likes reads plain (scan w matching (sn, 0)).1 short sn refl)

    third :
        contains sn names ≡ true
        → contains (next_name w (scan w matching ((get_sequence w sn).0, 0))) names ≡ false
    third f =
        subst (λ r. contains (next_name w (scan w matching (r, 0))) names ≡ false) (sym (rooted f))
          free
