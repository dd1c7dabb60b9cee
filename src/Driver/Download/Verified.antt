-- ===== src/Driver/Download/Verified.antt =====
-- What stands at the destination after `DownloadManager::download` of
-- services/driverd/src/download.rs.
use mission_os.Base.{
  ℕ, zero, suc, ◌+◌, Option, some, ◌&&◌, ◌≡◌, refl, sym, ap, ◌∙◌, inl, inr, ◌==◌, ltb, arith,
  Bool-cases, Option-cases, if◌then◌else◌,
}
use mission_os.Base.Results.{Result, ok, err, Result-cases}
use mission_os.Base.Text.{Text, codes, text_eq, text_eq_iff}
use mission_os.Driver.Audit.{info}
use mission_os.Driver.Metadata.{matches}
use mission_os.Driver.Metadata.Digest.{matches_iff}
use mission_os.Driver.System.{System}
use mission_os.Driver.World.{World, audit, record_event}
use mission_os.Driver.Web.{Web}
use mission_os.Driver.Fetch.{DownloadResult, hash_file, remove_quietly}
use mission_os.Driver.Download.{DownloadTracker, digest_verify, should_retry}
use mission_os.Driver.Download.Manager.{
  DownloadManager, Request, partial_path, audit_download, remove_partial, place, finish_download,
  stage, size_mismatch, verify_size, digest_mismatch, verify_result, perform_download_with_resume,
  max_attempts, retry, give_up, download_loop, start_loop, new_tracker, existing_size, resumed,
  download_package,
}

-- What the file system does: a file that is renamed keeps its content, and a removal leaves what is
-- read under the paths that do not reach the entry that is removed. A path reaches an entry in a state
-- if it names it, in whatever spelling, or leads through it, as through a link.
pub record IsFileSystem (S : System) (web : Web S) (Reaches : S.State → Text → Text → Type 0)
    : Type 0 where
  pub rename_content :
      (os : S.State) (from to : Text)
      → (web.rename os from to).1 ≡ ok tt
      → S.read_file (web.rename os from to).0 to ≡ S.read_file os from
  pub remove_other :
      (os : S.State) (removed path : Text)
      → ¬ Reaches os path removed
      → S.read_file (S.remove_file os removed).0 path ≡ S.read_file os path

module _ {S : System} (web : Web S) (Reaches : S.State → Text → Text → Type 0)
    (fs : IsFileSystem S web Reaches) (m : DownloadManager) (r : Request)
    (apart : (os : S.State) → ¬ Reaches os r.destination (partial_path m r.expected_digest)) where
  -- The answer is the destination, and the file there hashes to the digest.
  abbrev pub IsVerified : {A : Type 0} → World S × A → Text → Type 0
  IsVerified out path =
      (path ≡ r.destination)
      × (hash_file web r.expected_digest.algorithm r.destination out.0.os
          ≡ ok r.expected_digest.value)

  hash_same :
      (algorithm p q : Text) (a b : S.State)
      → S.read_file a p ≡ S.read_file b q
      → hash_file web algorithm p a ≡ hash_file web algorithm q b
  unfolding hash_file
  hash_same algorithm p q a b h = rw (h, hash_file) refl

  remove_partial-other :
      (w : World S) (path : Text)
      → ((os : S.State) → ¬ Reaches os r.destination path)
      → S.read_file (remove_partial web path w).0.os r.destination ≡ S.read_file w.os r.destination
  unfolding remove_partial remove_quietly
  remove_partial-other w path h = elim (Bool-cases (S.exists w.os path)) [
    | inl k ↦ rw (k, remove_partial) (fs.remove_other w.os path r.destination (h w.os))
    | inr k ↦ rw (k, remove_partial) refl
  ]

  place-content :
      (w : World S) (verified_path : Text)
      → (place web r verified_path w).1 ≡ ok tt
      → S.read_file (place web r verified_path w).0.os r.destination
        ≡ S.read_file w.os verified_path
  unfolding place
  place-content w verified_path h = elim (Bool-cases (text_eq verified_path r.destination)) [
    | inl k ↦
        let same = (text_eq_iff verified_path r.destination).0 k in
        rw (k, place) (ap (S.read_file w.os) (sym same))
    | inr k ↦ rw (k, place) (fs.rename_content w.os verified_path r.destination (ground arith))
  ]

  finish_download-content :
      (w : World S) (t : DownloadTracker)
      → S.read_file (finish_download web m r t w).0.os r.destination
        ≡ S.read_file w.os r.destination
  unfolding finish_download audit_download audit record_event
  finish_download-content w t = remove_partial-other w (partial_path m r.expected_digest) apart

  finish_download-answer :
      (w : World S) (t : DownloadTracker) → (finish_download web m r t w).1 ≡ ok r.destination
  unfolding finish_download
  finish_download-answer w t = refl

  stage-IsVerified :
      (w : World S) (t : DownloadTracker) (verified_path path : Text)
      → hash_file web r.expected_digest.algorithm verified_path w.os ≡ ok r.expected_digest.value
      → (stage web m r t verified_path w).1 ≡ ok path
      → IsVerified (stage web m r t verified_path w) path
  unfolding stage
  stage-IsVerified w t verified_path path hashed h =
      let placed = (place web r verified_path w).0 in
      elim (Result-cases (place web r verified_path w).1) [
        | inr (e, n) ↦ absurd (ground arith)
        | inl (done, n) ↦
            let content = finish_download-content placed t ∙ place-content w verified_path n in
            let answer = finish_download-answer placed t in
            let final = (finish_download web m r t placed).0.os in
            let kept =
              hash_same r.expected_digest.algorithm r.destination verified_path final w.os
                content in
            rw (n, stage) ((ground arith), kept ∙ hashed)
      ]

  verify_size-IsVerified :
      (w : World S) (t : DownloadTracker) (verified_path : Text) (actual : ℕ) (path : Text)
      → hash_file web r.expected_digest.algorithm verified_path w.os ≡ ok r.expected_digest.value
      → (verify_size web m r t verified_path actual w).1 ≡ ok path
      → IsVerified (verify_size web m r t verified_path actual w) path
  unfolding verify_size size_mismatch
  verify_size-IsVerified w t verified_path actual path hashed h =
      elim (Option-cases r.expected_size) [
        | inl n ↦
            rw (n, verify_size) (stage-IsVerified w t verified_path path hashed (ground arith))
        | inr (expected, n) ↦ elim (Bool-cases (actual == expected)) [
          | inl k ↦
              rw (n, k, verify_size) (stage-IsVerified w t verified_path path hashed (ground arith))
          | inr k ↦ absurd (ground arith)
        ]
      ]

  verify_result-IsVerified :
      (w : World S) (t : DownloadTracker) (result : DownloadResult) (path : Text)
      → (verify_result web m r t result w).1 ≡ ok path
      → IsVerified (verify_result web m r t result w) path
  unfolding verify_result digest_mismatch
  verify_result-IsVerified w t result path h =
      let verified_path = if S.exists w.os result.path then result.path else r.destination in
      elim (Result-cases (hash_file web r.expected_digest.algorithm verified_path w.os)) [
        | inr (e, n) ↦ absurd (ground arith)
        | inl (actual, n) ↦ elim (Bool-cases (matches r.expected_digest actual)) [
          | inr k ↦ absurd (ground arith)
          | inl k ↦
              let hashed = n ∙ ap ok (sym ((matches_iff r.expected_digest actual).0 k)) in
              rw (n, k, verify_result)
                (verify_size-IsVerified w (record t { state = digest_verify }) verified_path
                  result.actual_size path hashed (ground arith))
        ]
      ]

  -- The answer of the loop, if it is a path.
  loop-IsVerified :
      (fuel : ℕ) (existing : Option ℕ) (t : DownloadTracker) (failures : ℕ) (w : World S)
      (path : Text)
      → (download_loop web fuel m r existing t failures w).1 ≡ some (ok path)
      → IsVerified (download_loop web fuel m r existing t failures w) path
  unfolding download_loop give_up
  loop-IsVerified zero existing t failures w path h = absurd (ground arith)
  loop-IsVerified (suc fuel) existing t failures w path h =
      let out =
        perform_download_with_resume web m t (partial_path m r.expected_digest) existing w in
      elim (Result-cases out.1) [
        | inl (result, n) ↦
            rw (n, download_loop) (verify_result-IsVerified out.0 t result path (ground arith))
        | inr (e, n) ↦
            let counted = record t { retry_count = failures + 1 } in
            let next = retry web r counted e failures out.0 in
            elim (Bool-cases
              (ltb (failures + 1) (max_attempts m) && should_retry m.retry_policy e)) [
                | inl k ↦
                    rw (n, k, download_loop)
                      (loop-IsVerified fuel existing next.1 (failures + 1) next.0 path
                        (ground arith))
                | inr k ↦ absurd (ground arith)
              ]
      ]

  start-IsVerified :
      (existing : Option ℕ) (t : DownloadTracker) (made : Result Text (Unit {0})) (w : World S)
      (path : Text)
      → (start_loop web m r existing t made w).1 ≡ some (ok path)
      → IsVerified (start_loop web m r existing t made w) path
  unfolding start_loop
  start-IsVerified existing t (err e) w path h = absurd (ground arith)
  start-IsVerified existing t (ok u) w path h =
      loop-IsVerified (m.retry_policy.max_retries + 1) existing t 0 w path h

  -- If the destination never reaches the partial file, and a download answers a path, the path is the
  -- destination, and the file that stands there then hashes to the digest that was asked for, whether
  -- it was resumed or retried or not. The file system is one that keeps the content of a file that it
  -- renames, and of those that do not reach an entry that it removes.
  pub download_package-IsVerified :
      (w : World S) (path : Text)
      → (download_package web m r w).1 ≡ some (ok path)
      → IsVerified (download_package web m r w) path
  unfolding download_package
  download_package-IsVerified w path h =
      let (begun, t) = new_tracker web r w in
      let told =
        (audit_download web t r.source_id r.subject (codes "download_started") info begun).0 in
      let existing = existing_size web (partial_path m r.expected_digest) told.os in
      let made = web.create_dir told.os r.destination in
      start-IsVerified existing (resumed t existing) made.1 (record told { os = made.0 }) path h
