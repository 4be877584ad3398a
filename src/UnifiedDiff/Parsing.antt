-- ===== src/UnifiedDiff/Parsing.antt =====
-- What `parse_unified_diff_hunks` returns.
use zed_codex_acp_cas.Common.{
  some-eq, is_empty, subst, List, [], ◌∷◌, ◌++◌, Option, none, some, >>=-eq-some, ◌≡◌, refl, arith,
  if◌then◌else◌, Bool-cases, inl, inr,
}
use zed_codex_acp_cas.Common.Text.{
  Text, text_eq, codes, starts_with, split_inclusive, strip_newline,
}
use zed_codex_acp_cas.UnifiedDiff.{
  opened, scan_body, no_newline_marker, parse_unified_hunk_header, DiffLine, Hunk, Scan, flushed,
  trim_last, is_kind, push_body, scan_line, scan_lines, parse_unified_diff_hunks,
}
use zed_codex_acp_cas.UnifiedDiff.Applies.{AreKinds, AreHunks}

trim_last-AreKinds : (ls : List DiffLine) → AreKinds ls → AreKinds (trim_last ls)
trim_last-AreKinds [] h = tt
trim_last-AreKinds (l ∷ []) h = h
trim_last-AreKinds (l ∷ m ∷ ls) h = (h.0, trim_last-AreKinds (m ∷ ls) h.1)

AreKinds-append : (xs ys : List DiffLine) → AreKinds xs → AreKinds ys → AreKinds (xs ++ ys)
AreKinds-append [] ys h k = k
AreKinds-append (x ∷ xs) ys h k = (h.0, AreKinds-append xs ys h.1 k)

AreHunks-append : (xs ys : List Hunk) → AreHunks xs → AreHunks ys → AreHunks (xs ++ ys)
AreHunks-append [] ys h k = k
AreHunks-append (x ∷ xs) ys h k = (h.0, AreHunks-append xs ys h.1 k)

abbrev CurrentInv : Option Hunk → Type 0
CurrentInv none = Unit
CurrentInv (some h) = AreKinds h.lines

-- What the scan has gathered so far.
abbrev ScanInv : Scan → Type 0
ScanInv s = AreHunks s.hunks × CurrentInv s.current

flushed-AreHunks :
    (hs : List Hunk) (current : Option Hunk)
    → AreHunks hs
    → CurrentInv current
    → AreHunks (flushed (record { hunks = hs; current = current }))
flushed-AreHunks hs none h k = h
flushed-AreHunks hs (some c) h k = AreHunks-append hs (c ∷ []) h (k, tt)

push_body-AreKinds :
    (h : Hunk) (raw line : Text) → AreKinds h.lines → AreKinds (push_body h raw line).lines
push_body-AreKinds h raw [] k = k
push_body-AreKinds h raw (c ∷ text) k = elim (Bool-cases (is_kind c)) [
  | inl e ↦ rw e (AreKinds-append h.lines _ k (e, tt))
  | inr e ↦ rw e k
]

scan_body-ScanInv :
    (current : Option Hunk) (s : Scan) (raw_line line : Text)
    → s.current ≡ current
    → ScanInv s
    → ScanInv (scan_body current s raw_line line)
scan_body-ScanInv none s raw_line line e inv = inv
scan_body-ScanInv (some h) s raw_line line e inv =
    let kept : AreKinds h.lines = rw e at inv.1 in
    elim (Bool-cases (text_eq line no_newline_marker)) [
      | inl m ↦ rw m (inv.0, trim_last-AreKinds h.lines kept)
      | inr m ↦ rw m (inv.0, push_body-AreKinds h raw_line line kept)
    ]

scan_line-ScanInv :
    (s : Scan) (raw_line : Text) {t : Scan} → ScanInv s → scan_line s raw_line ≡ some t → ScanInv t
unfolding scan_line
scan_line-ScanInv s raw_line {t} inv e =
    elim (Bool-cases (starts_with (codes "@@") (strip_newline raw_line))) [
      | inl header ↦
          let (start, parsed, eq) =
            >>=-eq-some (parse_unified_hunk_header (strip_newline raw_line))
              (λ start. some (opened s start)) (rw header at e) in
          subst ScanInv (some-eq eq) (flushed-AreHunks s.hunks s.current inv.0 inv.1, tt)
      | inr body ↦
          subst ScanInv (some-eq (rw body at e))
            (scan_body-ScanInv s.current s raw_line (strip_newline raw_line) refl inv)
    ]

scan_lines-ScanInv :
    (ls : List Text) (s : Scan) {t : Scan} → ScanInv s → scan_lines s ls ≡ some t → ScanInv t
unfolding scan_lines
scan_lines-ScanInv [] s {t} inv e = subst ScanInv (some-eq e) inv
scan_lines-ScanInv (l ∷ ls) s inv e =
    let (m, first, others) = >>=-eq-some (scan_line s l) (λ m. scan_lines m ls) e in
    scan_lines-ScanInv ls m (scan_line-ScanInv s l inv first) others

-- Every line of a parsed hunk is context, added or deleted.
pub parse-AreHunks :
    (unified_diff : Text) {hunks : List Hunk}
    → parse_unified_diff_hunks unified_diff ≡ some hunks
    → AreHunks hunks
unfolding parse_unified_diff_hunks
parse-AreHunks unified_diff {hunks} e =
    let (s, scanned, checked) =
      >>=-eq-some
        (scan_lines (record { hunks = []; current = none }) (split_inclusive unified_diff))
        (λ s. if is_empty (flushed s) then none else some (flushed s)) e in
    let inv = scan_lines-ScanInv (split_inclusive unified_diff) _ (tt, tt) scanned in
    subst AreHunks (ground arith) (flushed-AreHunks s.hunks s.current inv.0 inv.1)
