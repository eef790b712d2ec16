-- ===== src/Release/Verified.antt =====
-- What `verify` and `verify_artifact` of appliance/lib/appliance_release.py promise.
use mindflayer_elderbrain.Base.{
  ℕ, ◌≡◌, refl, sym, ap, ◌∙◌, ◌↔◌, Bool, true, false, ◌&&◌, inl, inr, Option, none, some, not, ◌||◌,
  int?, List, [], ◌∷◌, String, str_eq, str_eq-true, eq_iff, leb, leb→le, leb-false, ◌==◌, ==_iff,
  between, and_true, Bool-cases, length, take, drop, arith, Value, ok, guard, or_raise, bind-ok,
  then-ok, guard-ok, ok-injective,
}
use mathlib.Core.Path.{subst}
use mindflayer_elderbrain.Release.Errors.{
  unsupported_component, size_mismatch, checksum_mismatch, schema_migration,
  incompatible_installed_api,
}
use mindflayer_elderbrain.Release.Fields.{number as read_number}
use mindflayer_elderbrain.Release.Manifest.{Artifact, Release, validate}
use mindflayer_elderbrain.Release.Verify.{
  Component, artifact_of, Opened, is_empty, read_chunks, verify_artifact, is_this_platform, serves,
  require_compatible,
}
use mindflayer_elderbrain.Release.Chunks.{
  length-take, length-take-drop, take-length, read_chunks-take, read_chunks-short,
}
use mindflayer_elderbrain.Release.Parts.{Within, between_lem, number-ok}

-- What makes an opened file the artifact.
abbrev pub IsExact : (List ℕ → String) → Opened → Artifact → Type 0
IsExact sha256 source a =
    (source.is_regular ≡ true)
    × (source.size ≡ a.size)
    × (length source.bytes ≡ a.size)
    × (sha256 source.bytes ≡ a.digest)

empty_lem : (bytes : List ℕ) → is_empty bytes ≡ true → length bytes ≡ 0
empty_lem [] h = refl
empty_lem (b ∷ bs) h = cc

drop_all : (bytes : List ℕ) → is_empty (drop (length bytes) bytes) ≡ true
drop_all [] = refl
drop_all (b ∷ bs) = drop_all bs

-- All of the bytes were read.
whole :
    (n : ℕ) (bytes seen rest : List ℕ)
    → read_chunks n n bytes [] ≡ ok (seen, rest)
    → is_empty rest ≡ true
    → (length bytes ≡ n) × (seen ≡ bytes)
whole n bytes seen rest h over = elim (Bool-cases (leb n (length bytes))) [
  | inr short ↦ cc (read_chunks-short n n bytes [] (leb-false n (length bytes) short), h)
  | inl enough ↦
      let fits = leb→le n (length bytes) enough in
      let pair : ◌≡◌ {A = List ℕ × List ℕ} (take n bytes, drop n bytes) (seen, rest) =
        ok-injective (sym (read_chunks-take n n bytes [] (omega arith) fits) ∙ h) in
      let gone =
        empty_lem (drop n bytes) (subst (λ l. is_empty l ≡ true) (sym (ap (λ z. z.1) pair)) over) in
      let same : length bytes ≡ n =
        omega (arith, gone, length-take n bytes fits, length-take-drop n bytes) in
      (same, sym (ap (λ z. z.0) pair) ∙ ap (λ j. take j bytes) (sym same) ∙ take-length bytes)
]

artifact-IsExact :
    (sha256 : List ℕ → String) (source : Opened) (v : Option Value) (c : Component) (a : Artifact)
    → verify_artifact sha256 source v c ≡ ok a
    → IsExact sha256 source a
unfolding verify_artifact
artifact-IsExact sha256 source v c a h =
    let (r, _, h₁) = bind-ok (validate v) _ h in
    let (b, _, h₂) = bind-ok (or_raise (artifact_of c r) unsupported_component) _ h₁ in
    let (x, h₃) = then-ok (guard (source.is_regular && source.size == b.size) size_mismatch) _ h₂ in
    let (read, y, h₄) = bind-ok (read_chunks b.size b.size source.bytes []) _ h₃ in
    let (z, same) =
      then-ok (guard (is_empty read.1 && str_eq (sha256 read.0) b.digest) checksum_mismatch) _ h₄ in
    let (regular, sized) = and_true (guard-ok _ size_mismatch x) in
    let (over, summed) = and_true (guard-ok _ checksum_mismatch z) in
    let (long, all) = whole b.size source.bytes read.0 read.1 y over in
    subst (IsExact sha256 source) (ok-injective same) (
      regular,
      (==_iff source.size b.size).0 sized,
      long,
      ap sha256 (sym all) ∙ str_eq-true (sha256 read.0) b.digest summed,
    )

exact_chunks :
    (n : ℕ) (bytes : List ℕ)
    → length bytes ≡ n
    → read_chunks n n bytes [] ≡ ok (bytes, drop n bytes)
exact_chunks n bytes e =
    read_chunks-take n n bytes [] (omega arith) (omega (arith, e))
    ∙ ap (λ l. ok (l, drop n bytes)) (ap (λ j. take j bytes) (sym e) ∙ take-length bytes)

verify_artifact_lem :
    (sha256 : List ℕ → String) (source : Opened) (v : Option Value) (r : Release) (c : Component)
    (a : Artifact)
    → validate v ≡ ok r
    → artifact_of c r ≡ some a
    → IsExact sha256 source a
    → verify_artifact sha256 source v c ≡ ok a
unfolding verify_artifact
verify_artifact_lem sha256 source v r c a valid has (regular, sized, long, summed) =
    let over : is_empty (drop a.size source.bytes) ≡ true =
      subst (λ n. is_empty (drop n source.bytes) ≡ true) long (drop_all source.bytes) in
    rw
      (
        valid,
        has,
        regular,
        (==_iff source.size a.size).1 sized,
        exact_chunks a.size source.bytes long,
        over,
        (eq_iff (sha256 source.bytes) a.digest).1 summed,
      )
      refl

-- An artifact of a valid release is verified exactly if the file is a regular one of its size both by
-- `fstat` and as it is read, in chunks, and its SHA-256 is the one that the manifest names.
pub verify_artifact-IsExact :
    (sha256 : List ℕ → String) (source : Opened) (v : Option Value) (r : Release) (c : Component)
    (a : Artifact)
    → validate v ≡ ok r
    → artifact_of c r ≡ some a
    → (verify_artifact sha256 source v c ≡ ok a) ↔ IsExact sha256 source a
verify_artifact-IsExact sha256 source v r c a valid has =
    (artifact-IsExact sha256 source v c a, verify_artifact_lem sha256 source v r c a valid has)

serves_lem :
    (r : Release) (o : Option ℕ)
    → (elim o [ none ↦ false | some n ↦ between r.setup.min_api r.setup.max_api n ]) ≡ true
    → (n : ℕ) × (o ≡ some n) × Within r.setup.min_api r.setup.max_api n
serves_lem r none h = cc
serves_lem r (some n) h = (n, refl, between_lem r.setup.min_api r.setup.max_api n h)

-- An update that `require_compatible` lets pass is by a valid release, for the platform and the
-- configuration schema that are installed; and where only the setup is replaced, the API of the
-- installed host is one that the new setup takes.
pub compatible_release_fits :
    (v : Option Value) (platform : Value) (schema installed : Option Value) (setup_only : Bool)
    → require_compatible v platform schema installed setup_only ≡ ok tt
    → (r : Release) × (validate v ≡ ok r)
      × (is_this_platform platform ≡ true)
      × (int? schema ≡ some r.schema)
      × (setup_only ≡ true
          → (n : ℕ) × (int? installed ≡ some n) × Within r.setup.min_api r.setup.max_api n)
unfolding require_compatible
compatible_release_fits v platform schema installed setup_only h =
    let (r, valid, h₁) = bind-ok (validate v) _ h in
    let (n, x, h₂) = bind-ok (read_number 1 65535 schema) _ h₁ in
    let (y, z) =
      then-ok (guard (is_this_platform platform && r.schema == n) schema_migration) _ h₂ in
    let (here_too, same) = and_true (guard-ok _ schema_migration y) in
    let installed_too =
      guard-ok (not setup_only || serves r installed) incompatible_installed_api z in
    (
      r,
      valid,
      here_too,
      (number-ok 1 65535 schema n x).0 ∙ ap some (sym ((==_iff r.schema n).0 same)),
      λ only. serves_lem r (int? installed) (rw only at installed_too),
    )
