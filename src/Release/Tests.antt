-- ===== src/Release/Tests.antt =====
-- Runs of the release policy at concrete inputs.
use mindflayer_elderbrain.Base.{
  ℕ, ◌<◌, ◌≡◌, refl, none, [], ◌∷◌, String, ok, err, Value, object, field, end, number, string,
}
use mindflayer_elderbrain.Release.Errors.{rollback_refused, identity_conflict}
use mindflayer_elderbrain.Release.Policy.{
  Accepted, commit, require_new, selected, read_record, save_record,
}
use mindflayer_elderbrain.Release.Policy.Laws.{no_downgrade, commits}
use mindflayer_elderbrain.Base.{is_digest, is_version}

abbrev pub digest_a : String
digest_a = "aaaaaaaaaaaaaaaaaaaaaaaaaaaaaaaaaaaaaaaaaaaaaaaaaaaaaaaaaaaaaaaa"

abbrev request : ℕ → String → Value
request n version = object (
    field "releaseSequence" (number n)
      (field "version" (string version) (field "manifestSha256" (string digest_a) end)))

abbrev pub accepted : ℕ → String → Accepted
accepted n version = record { sequence = n; version = version; digest = digest_a }

first_commit :
    commit (request 7 "1.2.3") none ≡ ok (accepted 7 "1.2.3", save_record (accepted 7 "1.2.3"))
unfolding commit selected read_record is_digest is_version
first_commit = refl

older_refused : commit (request 6 "1.2.2") (save_record (accepted 7 "1.2.3")) ≡ err rollback_refused
unfolding commit selected read_record is_digest is_version
older_refused = refl

other_refused :
    commit (request 7 "1.2.4") (save_record (accepted 7 "1.2.3")) ≡ err identity_conflict
unfolding commit selected read_record is_digest is_version
other_refused = refl

later_accepted :
    require_new
      (commits (request 6 "1.2.2" ∷ []) (save_record (accepted 7 "1.2.3")))
      (request 8 "1.3.0")
    ≡ ok 8
unfolding require_new commits commit selected read_record is_digest is_version
later_accepted = refl

no_downgrade_example : 7 < 8
unfolding read_record
no_downgrade_example =
    no_downgrade (request 7 "1.2.3") none (save_record (accepted 7 "1.2.3")) none
      (accepted 7 "1.2.3") refl first_commit (request 6 "1.2.2" ∷ []) (request 8 "1.3.0") 8
      later_accepted
