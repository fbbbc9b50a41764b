-- ===== src/Viewer/Telemetry/Intervals.antt =====
-- What the intervals of viewer/src/telemetry.ts add up to, and when a value is null.
use laptop_as_a_second_monit.Common.{
  ℕ, ◌+◌, ◌-◌, ◌≤◌, ◌≡◌, refl, ap, ◌⊎◌, true, false, Option, none, some, List, [], ◌∷◌, arith, ltb,
  Bool-cases, inl, inr,
}
use laptop_as_a_second_monit.Viewer.Telemetry.{
  interval_stats, interval_quality, interval_delays, interval_activity, activity_between,
  stats_between, delays_between, is_later, delta, difference, per_frame, per_count,
}
use laptop_as_a_second_monit.Viewer.Telemetry.Counters.{Doubles}
use laptop_as_a_second_monit.Viewer.Telemetry.Sampler.{
  Video, Pair, Telemetry, ReceiverStats, telemetry_of, sample, remember, activity_of,
}

module _ {D : Type 0} (F : Doubles D) where
  -- The frames that a sequence of samples reports as received, where null counts as none.
  abbrev pub or_none : Option ℕ → ℕ
  or_none none = 0
  or_none (some n) = n

  abbrev pub reported : Option (Telemetry D) → ℕ
  reported none = 0
  reported (some t) = or_none t.activity.frames_received

  unfoldable pub frames_reported : List (Video D) → ReceiverStats D → ℕ
  frames_reported [] r = 0
  frames_reported (v ∷ vs) r =
      let (r', t) = sample F none (some v) r in reported t + frames_reported vs r'

  -- Each sample is later than the one before, and its counter has not gone down.
  abbrev pub IsSteady : Video D → ℕ → List (Video D) → Type 0
  IsSteady u n [] = Unit
  IsSteady u n (v ∷ vs) =
      (F.less u.timestamp v.timestamp ≡ true)
      × ((m : ℕ) × (v.frames_received ≡ some m) × (n ≤ m) × IsSteady v m vs)

  abbrev pub last_count : ℕ → List (Video D) → ℕ
  last_count n [] = n
  last_count n (v ∷ vs) = last_count (or_none v.frames_received) vs

  reported_one :
      (u v : Video D) (n m : ℕ)
      → u.frames_received ≡ some n
      → v.frames_received ≡ some m
      → n ≤ m
      → F.less u.timestamp v.timestamp ≡ true
      → or_none (interval_activity F (activity_of F v) (some (activity_of F u))).frames_received
        ≡ m - n
  unfolding interval_activity activity_between
  reported_one u v n m hu hv le later =
      let risen : ltb m n ≡ false = ground arith in simp (later, hu, hv, risen) refl

  -- While the counter of received frames does not go down, the intervals that are reported add up to
  -- its whole increase: no frame is counted twice and none is left out.
  pub frames_reported_sum :
      (u : Video D) (n : ℕ) (vs : List (Video D))
      → u.frames_received ≡ some n
      → IsSteady u n vs
      → n + frames_reported vs (remember F u) ≡ last_count n vs
  unfolding frames_reported sample telemetry_of
  frames_reported_sum u n [] hu h = omega arith
  frames_reported_sum u n (v ∷ vs) hu (later, (m, hv, le, rest)) =
      let ih = frames_reported_sum v m vs hv rest in
      let one = reported_one u v n m hu hv le later in
      let last : last_count (or_none v.frames_received) vs ≡ last_count m vs =
        ap (λ o. last_count (or_none o) vs) hv in
      omega (arith, one, ih, last)

  difference_missing :
      (a b : Option ℕ)
      → (a ≡ none) ⊎ (b ≡ none)
      → (difference a b ≡ none) × (difference b a ≡ none) × (delta a b ≡ none)
  difference_missing none none h = (refl, refl, refl)
  difference_missing none (some b) h = (refl, refl, refl)
  difference_missing (some a) none h = (refl, refl, refl)
  difference_missing (some a) (some b) (inl e) = cc
  difference_missing (some a) (some b) (inr e) = cc

  per_frame_missing :
      (s p : Option D) (a b : Option ℕ) → (a ≡ none) ⊎ (b ≡ none) → per_frame F s p a b ≡ none
  per_frame_missing none p a b h = refl
  per_frame_missing (some s) none a b h = refl
  per_frame_missing (some s) (some p) none b h = refl
  per_frame_missing (some s) (some p) (some a) none h = refl
  per_frame_missing (some s) (some p) (some a) (some b) (inl e) = cc
  per_frame_missing (some s) (some p) (some a) (some b) (inr e) = cc

  per_count_missing : (s : Option D) → per_count F s none ≡ none
  per_count_missing none = refl
  per_count_missing (some s) = refl

  module _ (pair : Option (Pair D)) (u v : Video D)
      (h : (v.frames_decoded ≡ none) ⊎ (u.frames_decoded ≡ none)) where
    fps_missing : (telemetry_of F (remember F u) pair v).fps ≡ none
    unfolding telemetry_of interval_stats stats_between
    fps_missing = ground (arith, (difference_missing v.frames_decoded u.frames_decoded h).0)

    picture_missing :
        ((telemetry_of F (remember F u) pair v).picture.qp ≡ none)
        × ((telemetry_of F (remember F u) pair v).picture.corrupted ≡ none)
    unfolding telemetry_of interval_quality
    picture_missing =
        let none_left = (difference_missing v.frames_decoded u.frames_decoded h).0 in
        (
          simp none_left refl,
          (difference_missing (difference v.frames_received u.frames_received) _ (inr none_left)).0,
        )

    delays_missing :
        ((telemetry_of F (remember F u) pair v).decode_ms ≡ none)
        × ((telemetry_of F (remember F u) pair v).processing_ms ≡ none)
    unfolding telemetry_of interval_delays delays_between
    delays_missing = ground (
      arith,
      per_frame_missing v.total_decode_time u.total_decode_time v.frames_decoded u.frames_decoded h,
      per_frame_missing v.total_processing_delay u.total_processing_delay v.frames_decoded
          u.frames_decoded h,
    )

    activity_missing :
        ((telemetry_of F (remember F u) pair v).activity.frames_decoded ≡ none)
        × ((telemetry_of F (remember F u) pair v).activity.inter_frame_delay_ms ≡ none)
        × ((telemetry_of F (remember F u) pair v).activity.inter_frame_delay_std_ms ≡ none)
    unfolding telemetry_of interval_activity activity_between
    activity_missing =
        let gone = (difference_missing v.frames_decoded u.frames_decoded h).2 in
        elim (Bool-cases (is_later F v.timestamp u.timestamp)) [
          | inl e ↦ simp (e, gone, per_count_missing) (refl, refl, refl)
          | inr e ↦ simp e (refl, refl, refl)
        ]

  -- Where the browser publishes no number of decoded frames, now or before, no value that is made from it is
  -- a number: the rate, the quantizer, the corrupted frames, the delays per frame and the evenness are null.
  pub telemetry_of-missing :
      (pair : Option (Pair D)) (u v : Video D)
      → (v.frames_decoded ≡ none) ⊎ (u.frames_decoded ≡ none)
      → let t = telemetry_of F (remember F u) pair v in
        (t.fps ≡ none)
        × (t.picture.qp ≡ none)
        × (t.picture.corrupted ≡ none)
        × (t.decode_ms ≡ none)
        × (t.processing_ms ≡ none)
        × (t.activity.frames_decoded ≡ none)
        × (t.activity.inter_frame_delay_ms ≡ none)
        × (t.activity.inter_frame_delay_std_ms ≡ none)
  telemetry_of-missing pair u v h =
      let (qp, corrupted) = picture_missing pair u v h in
      let (decode, processing) = delays_missing pair u v h in
      let (decoded, delay, spread) = activity_missing pair u v h in
      (fps_missing pair u v h, qp, corrupted, decode, processing, decoded, delay, spread)
