-- ===== src/Driver/Download/Bounded.antt =====
-- The retries of `DownloadManager::download` of services/driverd/src/download.rs.
use mission_os.Base.{
  ℕ, zero, suc, ◌+◌, ◌-◌, ◌≤◌, ◌<◌, Option, none, some, Bool, true, false, ◌&&◌, ◌≡◌, ◌≢◌, refl, ap,
  ◌∙◌, inl, inr, ltb, arith, Bool-cases,
}
use mission_os.Base.Results.{Result, ok, err, Result-cases}
use mission_os.Base.Text.{Text, codes}
use mission_os.Driver.Audit.{info}
use mission_os.Driver.Error.{ServiceError, ServiceResult}
use mission_os.Driver.System.{System}
use mission_os.Driver.World.{World}
use mission_os.Driver.Web.{Web}
use mission_os.Driver.Fetch.{DownloadResult}
use mission_os.Driver.Download.{DownloadTracker, is_transient, should_retry}
use mission_os.Driver.Download.Manager.{
  DownloadManager, Request, partial_path, audit_download, verify_result,
  perform_download_with_resume, max_attempts, retry, give_up, download_loop, start_loop,
  new_tracker, existing_size, resumed, download_package,
}

max_attempts-le : (m : DownloadManager) → max_attempts m ≤ m.retry_policy.max_retries + 1
unfolding max_attempts
max_attempts-le m = omega arith

more_attempts : (n most : ℕ) (b : Bool) → (ltb n most && b) ≡ true → n < most
more_attempts n most b h = ground (arith, h)

module _ {S : System} (web : Web S) (m : DownloadManager) (r : Request) where
  -- One round for each attempt that is left is enough.
  loop-answers :
      (fuel : ℕ) (existing : Option ℕ) (t : DownloadTracker) (failures : ℕ) (w : World S)
      → 1 ≤ fuel
      → max_attempts m ≤ failures + fuel
      → (download_loop web fuel m r existing t failures w).1 ≢ none
  unfolding download_loop give_up
  loop-answers zero existing t failures w some_fuel enough = absurd (omega (arith, some_fuel))
  loop-answers (suc fuel) existing t failures w some_fuel enough =
      let out =
        perform_download_with_resume web m t (partial_path m r.expected_digest) existing w in
      elim (Result-cases out.1) [
        | inl (result, n) ↦ rw (n, download_loop) (λ h. cc)
        | inr (e, n) ↦
            let counted = record t { retry_count = failures + 1 } in
            let next = retry web r counted e failures out.0 in
            elim (Bool-cases
              (ltb (failures + 1) (max_attempts m) && should_retry m.retry_policy e)) [
                | inr k ↦ rw (n, k, download_loop) (λ h. cc)
                | inl k ↦
                    let more =
                      more_attempts (failures + 1) (max_attempts m) (should_retry m.retry_policy e)
                        k in
                    rw (n, k, download_loop)
                      (loop-answers fuel existing next.1 (failures + 1) next.0
                        (omega (arith, more, enough)) (omega (arith, enough)))
              ]
      ]

  start-answers :
      (existing : Option ℕ) (t : DownloadTracker) (made : Result Text (Unit {0})) (w : World S)
      → (start_loop web m r existing t made w).1 ≢ none
  unfolding start_loop
  start-answers existing t (err e) w h = ground (arith, h)
  start-answers existing t (ok u) w h =
      let bound = max_attempts-le m in
      loop-answers (m.retry_policy.max_retries + 1) existing t 0 w (omega arith) (omega arith) h

  -- A download ends with an answer: the loop makes no more attempts than the policy allows.
  pub download_package-answers : (w : World S) → (download_package web m r w).1 ≢ none
  unfolding download_package
  download_package-answers w =
      let (begun, t) = new_tracker web r w in
      let told =
        (audit_download web t r.source_id r.subject (codes "download_started") info begun).0 in
      let existing = existing_size web (partial_path m r.expected_digest) told.os in
      let made = web.create_dir told.os r.destination in
      start-answers existing (resumed t existing) made.1 (record told { os = made.0 })

  -- A number of attempts, one after the other, that fail with an error that is transient; each starts
  -- in the state that the wait after the one before it ends in.
  pub data Retried (existing : Option ℕ) (t : DownloadTracker) (w : World S)
      : ℕ → DownloadTracker → World S → Type 0 where
    none_yet : Retried existing t w 0 t w
    again :
        (n : ℕ) (u : DownloadTracker) (v : World S) (e : ServiceError)
        → Retried existing t w n u v
        → (perform_download_with_resume web m u (partial_path m r.expected_digest) existing v).1
          ≡ err e
        → is_transient e ≡ true
        → Retried existing t w
            (n + 1)
            (retry web r
              (record u { retry_count = n + 1 })
              e
              n
              (perform_download_with_resume web m u
                (partial_path m r.expected_digest)
                existing
                v).0).1
            (retry web r
              (record u { retry_count = n + 1 })
              e
              n
              (perform_download_with_resume web m u
                (partial_path m r.expected_digest)
                existing
                v).0).0

  next_round :
      (fuel : ℕ) (existing : Option ℕ) (t : DownloadTracker) (n : ℕ) (w : World S)
      (e : ServiceError)
      → (perform_download_with_resume web m t (partial_path m r.expected_digest) existing w).1
        ≡ err e
      → is_transient e ≡ true
      → n + 1 < max_attempts m
      → download_loop web (suc fuel) m r existing t n w
        ≡ download_loop web fuel m r existing
            (retry web r
              (record t { retry_count = n + 1 })
              e
              n
              (perform_download_with_resume web m t
                (partial_path m r.expected_digest)
                existing
                w).0).1
            (n + 1)
            (retry web r
              (record t { retry_count = n + 1 })
              e
              n
              (perform_download_with_resume web m t
                (partial_path m r.expected_digest)
                existing
                w).0).0
  unfolding download_loop should_retry
  next_round fuel existing t n w e failed transient left =
      let bound = max_attempts-le m in
      let more : (ltb (n + 1) (max_attempts m) && should_retry m.retry_policy e) ≡ true =
        ground arith in
      rw (failed, more, download_loop) refl

  -- The loop comes to every state that transient failures lead to.
  loop-Retried :
      (existing : Option ℕ) (t : DownloadTracker) (w : World S) (n : ℕ) (u : DownloadTracker)
      (v : World S)
      → Retried existing t w n u v
      → (fuel all_fuel : ℕ) → n < max_attempts m
      → all_fuel ≡ n + fuel
      → download_loop web all_fuel m r existing t 0 w ≡ download_loop web fuel m r existing u n v
  loop-Retried existing t w _ _ _ none_yet fuel all_fuel bound total =
      ap (λ f. download_loop web f m r existing t 0 w) (omega (arith, total))
  loop-Retried existing t w _ _ _ (again n u v e h failed transient) fuel all_fuel bound total =
      loop-Retried existing t w n u v h (suc fuel) all_fuel (omega (arith, bound))
        (omega (arith, total))
      ∙ next_round fuel existing u n v e failed transient (omega (arith, bound))

  -- What the attempt in a state downloads is verified and decides the answer, and so does an error of
  -- it that is not transient.
  pub record Decides (existing : Option ℕ) (u : DownloadTracker) (v : World S)
      (answer : Option (ServiceResult Text)) : Type 0 where
    pub on_download :
        (result : DownloadResult)
        → (perform_download_with_resume web m u (partial_path m r.expected_digest) existing v).1
          ≡ ok result
        → answer
          ≡ some
              (verify_result web m r u result
                (perform_download_with_resume web m u
                  (partial_path m r.expected_digest)
                  existing
                  v).0).1
    pub on_error :
        (e : ServiceError)
        → (perform_download_with_resume web m u (partial_path m r.expected_digest) existing v).1
          ≡ err e
        → is_transient e ≡ false
        → answer ≡ some (err e)

  round-Decides :
      (fuel : ℕ) (existing : Option ℕ) (u : DownloadTracker) (n : ℕ) (v : World S)
      → 1 ≤ fuel
      → Decides existing u v (download_loop web fuel m r existing u n v).1
  unfolding download_loop give_up should_retry
  round-Decides zero existing u n v some_fuel = absurd (omega (arith, some_fuel))
  round-Decides (suc fuel) existing u n v some_fuel = record {
    on_download = λ result h. rw (h, download_loop) refl;
    on_error = λ e h permanent.
        let last : (ltb (n + 1) (max_attempts m) && should_retry m.retry_policy e) ≡ false =
          ground arith in
        rw (h, last, download_loop) refl;
  }

  -- After any number of attempts that failed with a transient error, as long as it is less than the
  -- greatest number of attempts, the next attempt is made, and decides the answer if it downloads
  -- something or its error is not transient.
  pub start_loop-Decides :
      (existing : Option ℕ) (t : DownloadTracker) (w : World S) (n : ℕ) (u : DownloadTracker)
      (v : World S)
      → Retried existing t w n u v
      → n < max_attempts m
      → Decides existing u v (start_loop web m r existing t (ok tt) w).1
  unfolding start_loop
  start_loop-Decides existing t w n u v h bound =
      let attempts = max_attempts-le m in
      let fuel = m.retry_policy.max_retries + 1 - n in
      rw
        (loop-Retried existing t w n u v h fuel (m.retry_policy.max_retries + 1) bound
          (omega arith))
        (round-Decides fuel existing u n v (omega arith))
