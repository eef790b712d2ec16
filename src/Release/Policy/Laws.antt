-- ===== src/Release/Policy/Laws.antt =====
-- The accepted sequence only grows, whatever is committed.
use mindflayer_elderbrain.Base.{
  ℕ, ◌≤◌, ◌<◌, ◌≡◌, ap, true, Option, none, some, List, [], ◌∷◌, String, eq_iff, arith, inl, inr,
  Result, ok, err, guard, bind-ok, then-ok, guard-ok, Result-cases, Bool-cases, ltb, ltb→lt, Value,
  object, get, int?, text?, or_raise, between,
}
use mindflayer_elderbrain.Release.Errors.{Error, bad_sequence, not_newer, bad_acceptance_record}
use mindflayer_elderbrain.Release.Policy.{
  Accepted, PolicyFile, accept, is_accepted, read_record, highest, require_new, selected,
  save_record, same_accepted, commit_over, commit, max_sequence,
}

abbrev IsAccepted : Accepted → Type 0
IsAccepted a = is_accepted a.sequence a.version a.digest ≡ true

accept-IsAccepted :
    (e : Error) (s : Option ℕ) (v d : Option String) {a : Accepted}
    → accept e s v d ≡ ok a
    → IsAccepted a
accept-IsAccepted e (some s) (some v) (some d) h = elim (Bool-cases (is_accepted s v d)) [
  | inl valid ↦ ground arith
  | inr invalid ↦ cc (rw invalid at h)
]
accept-IsAccepted e (some s) (some v) none h = cc
accept-IsAccepted e (some s) none d h = cc
accept-IsAccepted e none v d h = cc

-- What is saved is read back.
pub read_record-save_record :
    (a : Accepted) → IsAccepted a → read_record (save_record a) ≡ ok (some a)
unfolding read_record
read_record-save_record a h = rw h

selected-IsAccepted : (request : Value) {a : Accepted} → selected request ≡ ok a → IsAccepted a
unfolding selected
selected-IsAccepted (object fields) h =
    accept-IsAccepted bad_acceptance_record (int? (get "releaseSequence" (object fields)))
      (text? (get "version" (object fields))) (text? (get "manifestSha256" (object fields))) h
selected-IsAccepted v h = cc

same_accepted_lem : (a b : Accepted) → same_accepted a b ≡ true → a ≡ b
same_accepted_lem a b h = ground (arith, eq_iff a.version b.version, eq_iff a.digest b.digest)

positive : (a : Accepted) → IsAccepted a → ¬ (a.sequence ≡ 0)
positive a h = ground arith

commit_over_lem :
    (file : Option PolicyFile) (current : Option Accepted) (new a : Accepted)
    (file' : Option PolicyFile)
    → read_record file ≡ ok current
    → IsAccepted new
    → commit_over file current new ≡ ok (a, file')
    → (a ≡ new)
      × (read_record file' ≡ ok (some a))
      × (highest current ≤ a.sequence)
      × (a.sequence ≡ highest current → file' ≡ file)
commit_over_lem file none new a file' r h e = (
  ground arith,
  ground (arith, read_record-save_record new h),
  ground arith,
  λ z. absurd (positive new h (ground arith)),
)
commit_over_lem file (some c) new a file' r h e = (
  ground (arith, same_accepted_lem c new),
  ground (arith, same_accepted_lem c new, read_record-save_record new h),
  ground (arith, same_accepted_lem c new),
  ground (arith, same_accepted_lem c new),
)

pub commit_monotonic :
    (request : Value) (file file' : Option PolicyFile) (current : Option Accepted) (a : Accepted)
    → read_record file ≡ ok current
    → commit request file ≡ ok (a, file')
    → (selected request ≡ ok a)
      × (read_record file' ≡ ok (some a))
      × (highest current ≤ a.sequence)
      × (a.sequence ≡ highest current → file' ≡ file)
unfolding commit
commit_monotonic request file file' current a r e =
    let (new, chosen, e') = bind-ok (selected request) _ e in
    let (cur, r', e'') = bind-ok (read_record file) _ e' in
    let same : cur ≡ current = cc (r, r') in
    let (x, y, z, w) =
      commit_over_lem file current new a file' r (selected-IsAccepted request chosen)
        (rw same at e'') in
    (rw x chosen, y, z, w)

-- An exception leaves the file as it is.
abbrev pub after :
    Option PolicyFile → Result Error (Accepted × Option PolicyFile) → Option PolicyFile
after file (ok (a, file')) = file'
after file (err e) = file

unfoldable pub commits : List Value → Option PolicyFile → Option PolicyFile
commits [] file = file
commits (request ∷ rest) file = commits rest (after file (commit request file))

commits-readable :
    (requests : List Value) (file : Option PolicyFile) (current : Option Accepted)
    → read_record file ≡ ok current
    → (last : Option Accepted) × (read_record (commits requests file) ≡ ok last)
      × (highest current ≤ highest last)
unfolding commits
commits-readable [] file current r = (current, r, omega arith)
commits-readable (request ∷ rest) file current r = elim (Result-cases (commit request file)) [
  | inl (e, failed) ↦ rw failed (commits-readable rest file current r)
  | inr ((a, file'), done) ↦
      let (c, back, le, same) = commit_monotonic request file file' current a r done in
      let (last, r', le') = commits-readable rest file' (some a) back in
      rw done (last, r', omega arith)
]

-- A release that `require_new` lets in lies above the accepted one.
require_new-lt :
    (file : Option PolicyFile) (release : Value) (current : Option Accepted) (n : ℕ)
    → read_record file ≡ ok current
    → require_new file release ≡ ok n
    → highest current < n
unfolding require_new
require_new-lt file release current n r new =
    let (m, s, e1) = bind-ok (or_raise (int? (get "releaseSequence" release)) bad_sequence) _ new in
    let (u, e2) = then-ok (guard (between 1 max_sequence m) bad_sequence) _ e1 in
    let (seen, r', e3) = bind-ok (read_record file) _ e2 in
    let (newer, e4) = then-ok (guard (ltb (highest seen) m) not_newer) _ e3 in
    let above = guard-ok (ltb (highest seen) m) not_newer newer in
    let same : seen ≡ current = cc (r, r') in
    let exact : m ≡ n = cc e4 in
    omega (arith, ltb→lt (highest seen) m above, ap highest same, exact)

-- Once a release is accepted, no sequence of further commits, failing ones among them, makes
-- `require_new` let in a release whose sequence is not above it.
pub no_downgrade :
    (request : Value) (file file' : Option PolicyFile) (current : Option Accepted) (a : Accepted)
    → read_record file ≡ ok current
    → commit request file ≡ ok (a, file')
    → (requests : List Value) (release : Value) (n : ℕ)
    → require_new (commits requests file') release ≡ ok n
    → a.sequence < n
no_downgrade request file file' current a r e requests release n new =
    let back = (commit_monotonic request file file' current a r e).1 in
    let (last, r', le) = commits-readable requests file' (some a) back in
    omega (arith, le, require_new-lt (commits requests file') release last n r' new)
