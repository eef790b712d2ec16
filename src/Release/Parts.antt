-- ===== src/Release/Parts.antt =====
-- The parts of a release manifest: what the checks of appliance/lib/appliance_release.py promise of each.
use Prim.Native.String.{count}
use mindflayer_elderbrain.Base.{
  ℕ, ◌≤◌, ◌≡◌, sym, ap, ◌∙◌, Bool, true, ◌&&◌, Option, none, some, List, String, leb, leb→le,
  ltb→lt, ==_iff, between, and_true, In, In-cases, Value, Fields, field, end, text?, int?,
  is_version, is_digest, ok, guard, or_raise, bind-ok, then-ok, guard-ok, ok-injective,
}
use mathlib.Core.Path.{subst}
use mindflayer_elderbrain.Release.Errors.{
  Error, bad_integer, bad_pattern, unsupported_artifact_name, unsupported_abi, bad_inventory,
  bad_filename, unsupported_scope, bad_archive_contents,
}
use mindflayer_elderbrain.Release.Fields.{at, keys, number, pattern, is_image_reference}
use mindflayer_elderbrain.Release.Manifest.{
  Artifact, Host, Setup, Entry, Dependencies, host_limit, size_limit, file_limit, total_limit,
  read_artifact, read_host, read_setup, kind?, read_entry, read_entries, wheels, nodes, total,
  is_complete, fields_of, read_dependencies,
}

abbrev pub Within : ℕ → ℕ → ℕ → Type 0
Within low high n = (low ≤ n) × (n ≤ high)

pub between_lem : (low high n : ℕ) → between low high n ≡ true → Within low high n
between_lem low high n h = let (a, b) = and_true h in (leb→le low n a, leb→le n high b)

pub or_raise-ok : {A : Type 0} (o : Option A) (e : Error) {a : A} → or_raise o e ≡ ok a → o ≡ some a
or_raise-ok none e h = cc
or_raise-ok (some b) e h = cc

pub number-ok :
    (low high : ℕ) (v : Option Value) (n : ℕ)
    → number low high v ≡ ok n
    → (int? v ≡ some n) × Within low high n
unfolding number
number-ok low high v n h =
    let (k, found, h₁) = bind-ok (or_raise (int? v) bad_integer) _ h in
    let (inside, same) = then-ok (guard (between low high k) bad_integer) _ h₁ in
    let e : k ≡ n = ok-injective same in
    (
      or_raise-ok (int? v) bad_integer found ∙ ap some e,
      subst (Within low high) e
          (between_lem low high k (guard-ok (between low high k) bad_integer inside)),
    )

pub pattern-ok :
    (p : String → Bool) (v : Option Value) (s : String) → pattern p v ≡ ok s → p s ≡ true
unfolding pattern
pattern-ok p v s h =
    let (t, found, h₁) = bind-ok (or_raise (text? v) bad_pattern) _ h in
    let (inside, same) = then-ok (guard (leb (count t) 512 && p t) bad_pattern) _ h₁ in
    subst (λ x. p x ≡ true) (ok-injective same) (and_true (guard-ok _ bad_pattern inside)).1

-- An artifact of at most `limit` bytes, with a digest.
pub record IsArtifact (limit : ℕ) (a : Artifact) : Type 0 where
  pub size : Within 1 limit a.size
  pub digest : is_digest a.digest ≡ true

pub read_artifact-IsArtifact :
    (name : String) (limit : ℕ) (v : Option Value) (a : Artifact)
    → read_artifact name limit v ≡ ok a
    → IsArtifact limit a
unfolding read_artifact
read_artifact-IsArtifact name limit v a h =
    let (_, h₁) = then-ok (keys _ v) _ h in
    let (_, h₂) = then-ok (guard _ unsupported_artifact_name) _ h₁ in
    let (size, s, h₃) = bind-ok (number 1 limit (at "size" v)) _ h₂ in
    let (digest, d, same) = bind-ok (pattern is_digest (at "sha256" v)) _ h₃ in
    subst (IsArtifact limit) (ok-injective same) (record {
      size = (number-ok 1 limit (at "size" v) size s).1;
      digest = pattern-ok is_digest (at "sha256" v) digest d;
    })

pub record IsHost (h : Host) : Type 0 where
  pub version : is_version h.version ≡ true
  pub api : Within 1 65535 h.api
  pub artifact : IsArtifact host_limit h.artifact

pub read_host-IsHost : (v : Option Value) (a : Host) → read_host v ≡ ok a → IsHost a
unfolding read_host
read_host-IsHost v a h =
    let (_, h₁) = then-ok (keys _ v) _ h in
    let (version, x, h₂) = bind-ok (pattern is_version (at "version" v)) _ h₁ in
    let (api, y, h₃) = bind-ok (number 1 65535 (at "apiVersion" v)) _ h₂ in
    let (artifact, z, same) =
      bind-ok (read_artifact "elderbrain-host.tar.zst" host_limit (at "artifact" v)) _ h₃ in
    subst IsHost (ok-injective same) (record {
      version = pattern-ok is_version (at "version" v) version x;
      api = (number-ok 1 65535 (at "apiVersion" v) api y).1;
      artifact =
          read_artifact-IsArtifact "elderbrain-host.tar.zst" host_limit (at "artifact" v) artifact
            z;
    })

pub record IsSetup (s : Setup) : Type 0 where
  pub version : is_version s.version ≡ true
  pub image : is_image_reference s.image ≡ true
  pub low : 1 ≤ s.min_api
  pub ordered : s.min_api ≤ s.max_api
  pub high : s.max_api ≤ 65535

pub read_setup-IsSetup : (v : Option Value) (a : Setup) → read_setup v ≡ ok a → IsSetup a
unfolding read_setup
read_setup-IsSetup v a h =
    let api = at "hostApi" v in
    let (_, h₁) = then-ok (keys _ v) _ h in
    let (version, x, h₂) = bind-ok (pattern is_version (at "version" v)) _ h₁ in
    let (image, y, h₃) = bind-ok (pattern is_image_reference (at "image" v)) _ h₂ in
    let (_, h₄) = then-ok (keys _ api) _ h₃ in
    let (low, z, h₅) = bind-ok (number 1 65535 (at "min" api)) _ h₄ in
    let (high, w, same) = bind-ok (number low 65535 (at "max" api)) _ h₅ in
    let above = (number-ok low 65535 (at "max" api) high w).1 in
    subst IsSetup (ok-injective same) (record {
      version = pattern-ok is_version (at "version" v) version x;
      image = pattern-ok is_image_reference (at "image" v) image y;
      low = (number-ok 1 65535 (at "min" api) low z).1.0;
      ordered = above.0;
      high = above.1;
    })

-- A file of the archive of dependencies.
pub record IsEntry (e : Entry) : Type 0 where
  pub size : Within 1 file_limit e.size
  pub digest : is_digest e.digest ≡ true

read_entry-IsEntry : (name : String) (v : Value) (e : Entry) → read_entry name v ≡ ok e → IsEntry e
unfolding read_entry
read_entry-IsEntry name v e h =
    let (_, h₁) = then-ok (guard _ bad_filename) _ h in
    let (kind, _, h₂) = bind-ok (or_raise (kind? name) unsupported_scope) _ h₁ in
    let (_, h₃) = then-ok (keys _ (some v)) _ h₂ in
    let (size, x, h₄) = bind-ok (number 1 file_limit (at "size" (some v))) _ h₃ in
    let (digest, y, same) = bind-ok (pattern is_digest (at "sha256" (some v))) _ h₄ in
    subst IsEntry (ok-injective same) (record {
      size = (number-ok 1 file_limit (at "size" (some v)) size x).1;
      digest = pattern-ok is_digest (at "sha256" (some v)) digest y;
    })

read_entries-IsEntry :
    (fields : Fields) (es : List Entry) (e : Entry)
    → read_entries fields ≡ ok es
    → In e es
    → IsEntry e
unfolding read_entries
read_entries-IsEntry end es e h i = elim (subst (λ l. In e l) (sym (ok-injective h)) i) [ ]
read_entries-IsEntry (field name v rest) es e h i =
    let (first, x, h₁) = bind-ok (read_entry name v) _ h in
    let (others, y, same) = bind-ok (read_entries rest) _ h₁ in
    In-cases e first others (subst (λ l. In e l) (sym (ok-injective same)) i)
      (λ is_first. subst IsEntry (sym is_first) (read_entry-IsEntry name v first x))
      (read_entries-IsEntry rest others e y)

-- The archive of dependencies, whose files are what it takes.
pub record IsArchive (d : Dependencies) : Type 0 where
  pub artifact : IsArtifact size_limit d.artifact
  pub files : (e : Entry) → In e d.files → IsEntry e
  pub has_wheel : 1 ≤ wheels d.files
  pub one_node : nodes d.files ≡ 1
  pub total : total d.files ≤ total_limit

complete_lem :
    (es : List Entry)
    → is_complete es ≡ true
    → (1 ≤ wheels es) × (nodes es ≡ 1) × (total es ≤ total_limit)
complete_lem es h =
    let (b, d) = and_true h in
    let (a, c) = and_true b in
    (ltb→lt 0 (wheels es) a, (==_iff (nodes es) 1).0 c, leb→le (total es) total_limit d)

pub read_dependencies-IsArchive :
    (v : Option Value) (d : Dependencies) → read_dependencies v ≡ ok d → IsArchive d
unfolding read_dependencies
read_dependencies-IsArchive v d h =
    let fields = fields_of (at "files" v) in
    let (_, h₁) = then-ok (keys _ v) _ h in
    let (_, h₂) = then-ok (guard _ unsupported_abi) _ h₁ in
    let (artifact, x, h₃) =
      bind-ok (read_artifact "elderbrain-dependencies.tar.zst" size_limit (at "artifact" v)) _ h₂ in
    let (_, h₄) = then-ok (guard _ bad_inventory) _ h₃ in
    let (files, y, h₅) = bind-ok (read_entries fields) _ h₄ in
    let (z, same) = then-ok (guard (is_complete files) bad_archive_contents) _ h₅ in
    let (has_wheel, one_node, small) =
      complete_lem files (guard-ok (is_complete files) bad_archive_contents z) in
    subst IsArchive (ok-injective same) (record {
      artifact =
          read_artifact-IsArtifact "elderbrain-dependencies.tar.zst" size_limit (at "artifact" v)
            artifact x;
      files = λ e. read_entries-IsEntry fields files e y;
      has_wheel = has_wheel;
      one_node = one_node;
      total = small;
    })
