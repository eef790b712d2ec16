-- ===== src/Release/Validated.antt =====
-- What a release manifest that `validate` (appliance/lib/appliance_release.py) accepts promises, and how
-- `require_new` (appliance/lib/release_policy.py) takes it.
use mindflayer_elderbrain.Base.{
  ℕ, ◌≡◌, refl, sym, Bool, true, false, ◌||◌, Option, none, some, ◌⊎◌, inl, inr, if◌then◌else◌,
  le→leb, ltb, ◌==◌, ==_iff, between, and_true, Bool-cases, Value, int?, is_version, ok, err, guard,
  or_raise, ◌>>◌, bind-ok, then-ok, guard-ok, ok-injective,
}
use mathlib.Core.Path.{subst}
use mindflayer_elderbrain.Release.Errors.{unsupported_format, incompatible_host_api, not_newer}
use mindflayer_elderbrain.Release.Fields.{at, keys, number, pattern}
use mindflayer_elderbrain.Release.Manifest.{
  Dependencies, Release, sequence_limit, read_host, read_setup, check_platform, check_images,
  check_notes, read_dependencies, maybe_dependencies, read_format, is_supported, validate,
}
use mindflayer_elderbrain.Release.Policy.{PolicyFile, Accepted, read_record, highest, require_new}
use mindflayer_elderbrain.Release.Parts.{
  Within, between_lem, number-ok, pattern-ok, IsHost, IsSetup, IsArchive, read_host-IsHost,
  read_setup-IsSetup, read_dependencies-IsArchive,
}

-- What a release has beside its setup and its host: format 1 has no dependencies, format 2 an archive.
abbrev pub HasArchive : ℕ → Option Dependencies → Type 0
HasArchive format dependencies =
    ((format ≡ 1) × (dependencies ≡ none))
    ⊎ ((format ≡ 2) × (d : Dependencies) × (dependencies ≡ some d) × IsArchive d)

-- The bounds of a release.
pub record IsRelease (r : Release) : Type 0 where
  pub version : is_version r.version ≡ true
  pub sequence : Within 1 sequence_limit r.sequence
  pub recovery_api : Within 1 65535 r.recovery_api
  pub host : IsHost r.host
  pub setup : IsSetup r.setup
  pub supported : Within r.setup.min_api r.setup.max_api r.host.api
  pub schema : Within 1 65535 r.schema
  pub downtime : Within 0 86400 r.downtime
  pub dependencies : HasArchive r.format r.dependencies

one_or_two_lem : (n : ℕ) → (n == 1 || n == 2) ≡ true → (n ≡ 1) ⊎ (n ≡ 2)
one_or_two_lem n h = elim (Bool-cases (n == 1)) [
  | inl one ↦ inl ((==_iff n 1).0 one)
  | inr other ↦ inr ((==_iff n 2).0 (rw other at h))
]

read_format-ok : (v : Option Value) (n : ℕ) → read_format v ≡ ok n → (n ≡ 1) ⊎ (n ≡ 2)
unfolding read_format
read_format-ok v n h =
    let (k, _, h₁) = bind-ok (or_raise (int? (at "format" v)) unsupported_format) _ h in
    let (x, same) = then-ok (guard _ unsupported_format) _ h₁ in
    let (one_or_two, _) = and_true (guard-ok _ unsupported_format x) in
    subst (λ i. (i ≡ 1) ⊎ (i ≡ 2)) (ok-injective same) (one_or_two_lem k one_or_two)

maybe_lem :
    (format : ℕ) (v : Option Value) (d : Option Dependencies)
    → (format ≡ 1) ⊎ (format ≡ 2)
    → maybe_dependencies (format == 2) v ≡ ok d
    → HasArchive format d
maybe_lem format v d (inl one) h =
    inl (one, sym (ok-injective (subst (λ f. maybe_dependencies (f == 2) v ≡ ok d) one h)))
maybe_lem format v d (inr two) h =
    let (archive, x, same) =
      bind-ok (read_dependencies v) _ (subst (λ f. maybe_dependencies (f == 2) v ≡ ok d) two h) in
    inr (two, archive, sym (ok-injective same), read_dependencies-IsArchive v archive x)

-- What `validate` read, and where the sequence stands.
pub record IsRead (v : Option Value) (r : Release) : Type 0 where
  pub release : IsRelease r
  pub sequence : int? (at "releaseSequence" v) ≡ some r.sequence

pub validate-IsRead : (v : Option Value) (r : Release) → validate v ≡ ok r → IsRead v r
unfolding validate
validate-IsRead v r h =
    let (_, h₁) = then-ok (keys _ v) _ h in
    let (format, a, h₂) = bind-ok (read_format v) _ h₁ in
    let (version, b, h₃) = bind-ok (pattern is_version (at "version" v)) _ h₂ in
    let (sequence, c, h₄) = bind-ok (number 1 sequence_limit (at "releaseSequence" v)) _ h₃ in
    let (recovery_api, d, h₅) = bind-ok (number 1 65535 (at "recoveryApi" v)) _ h₄ in
    let (_, h₆) = then-ok (check_platform (at "platform" v)) _ h₅ in
    let (host, e, h₇) = bind-ok (read_host (at "host" v)) _ h₆ in
    let (setup, f, h₈) = bind-ok (read_setup (at "setup" v)) _ h₇ in
    let (g, h₉) = then-ok (guard (is_supported host setup) incompatible_host_api) _ h₈ in
    let (_, k₁) = then-ok (check_images (at "images" v)) _ h₉ in
    let (schema, i, k₂) = bind-ok (number 1 65535 (at "configurationSchema" v)) _ k₁ in
    let (downtime, j, k₃) = bind-ok (number 0 86400 (at "downtimeSeconds" v)) _ k₂ in
    let (_, k₄) = then-ok (check_notes (at "notes" v)) _ k₃ in
    let (dependencies, l, same) =
      bind-ok (maybe_dependencies (format == 2) (at "dependencies" v)) _ k₄ in
    let (at_sequence, bounds) = number-ok 1 sequence_limit (at "releaseSequence" v) sequence c in
    subst (IsRead v) (ok-injective same) (record {
      release = record {
        version = pattern-ok is_version (at "version" v) version b;
        sequence = bounds;
        recovery_api = (number-ok 1 65535 (at "recoveryApi" v) recovery_api d).1;
        host = read_host-IsHost (at "host" v) host e;
        setup = read_setup-IsSetup (at "setup" v) setup f;
        supported =
            between_lem setup.min_api setup.max_api host.api
              (guard-ok (is_supported host setup) incompatible_host_api g);
        schema = (number-ok 1 65535 (at "configurationSchema" v) schema i).1;
        downtime = (number-ok 0 86400 (at "downtimeSeconds" v) downtime j).1;
        dependencies =
            maybe_lem format (at "dependencies" v) dependencies (read_format-ok v format a) l;
      };
      sequence = at_sequence;
    })

let_in :
    (test : Bool) (n : ℕ) → (guard test not_newer >> ok n) ≡ (if test then ok n else err not_newer)
let_in true n = refl
let_in false n = refl

between-true : (low high n : ℕ) → Within low high n → between low high n ≡ true
between-true low high n (a, b) = rw (le→leb low n a, le→leb n high b) refl

-- A manifest that `validate` accepts is let in by `require_new`, over any readable policy file, exactly if
-- its sequence is above the accepted one; it is never refused for its sequence's form.
pub valid_release_is_let_in :
    (v : Value) (r : Release) (file : Option PolicyFile) (current : Option Accepted)
    → validate (some v) ≡ ok r
    → read_record file ≡ ok current
    → require_new file v
      ≡ (if ltb (highest current) r.sequence then ok r.sequence else err not_newer)
unfolding require_new
valid_release_is_let_in v r file current h readable =
    let read = validate-IsRead (some v) r h in
    rw (read.sequence, between-true 1 sequence_limit r.sequence read.release.sequence, readable)
      (let_in (ltb (highest current) r.sequence) r.sequence)
