-- ===== src/Viewer/Tests/Telemetry.antt =====
-- The properties of viewer/src/telemetry.ts at concrete samples, with natural numbers for doubles.
use laptop_as_a_second_monit.Common.{
  ℕ, ◌+◌, ◌-◌, ◌*◌, ◌/◌, ◌≡◌, refl, inr, Option, none, some, List, [], ◌∷◌, arith, ltb,
}
use laptop_as_a_second_monit.Viewer.Telemetry.Counters.{Doubles}
use laptop_as_a_second_monit.Viewer.Telemetry.Sampler.{Video, remember, telemetry_of}
use laptop_as_a_second_monit.Viewer.Telemetry.Intervals.{
  frames_reported, last_count, frames_reported_sum, telemetry_of-missing,
}

abbrev naturals : Doubles ℕ
naturals = record {
  of_nat = λ n. n;
  add = λ a b. a + b;
  sub = λ a b. a - b;
  mul = λ a b. a * b;
  div = λ a b. a / b;
  sqrt = λ a. a;
  less = ltb;
}

-- The statistics at a time, with a number of received and decoded frames.
abbrev video_at : ℕ → Option ℕ → Option ℕ → Video ℕ
video_at time received decoded = record {
  timestamp = time;
  bytes_received = some 1000;
  packets_received = some 10;
  packets_lost = none;
  frames_received = received;
  frames_decoded = decoded;
  frames_rendered = none;
  frames_dropped = some 0;
  key_frames_decoded = none;
  qp_sum = some 300;
  pli_count = some 0;
  nack_count = some 0;
  fir_count = none;
  freeze_count = none;
  pause_count = none;
  total_freezes_duration = none;
  total_pauses_duration = none;
  total_decode_time = some 1;
  total_processing_delay = some 2;
  total_inter_frame_delay = some 3;
  total_squared_inter_frame_delay = some 9;
  jitter = some 0;
  jitter_buffer_delay = some 0;
  jitter_buffer_target_delay = none;
  jitter_buffer_emitted_count = some 5;
  decoder_implementation = none;
  power_efficient_decoder = none;
}

abbrev later_videos : List (Video ℕ)
later_videos = video_at 2000 (some 90) (some 90) ∷ video_at 3000 (some 150) (some 149) ∷ []

frames_reported_sum_example :
    30
      + frames_reported naturals later_videos
          (remember naturals (video_at 1000 (some 30) (some 30)))
    ≡ last_count naturals 30 later_videos
frames_reported_sum_example =
    frames_reported_sum naturals (video_at 1000 (some 30) (some 30)) 30 later_videos refl
      (refl, (90, refl, omega arith, (refl, (150, refl, omega arith, tt))))

telemetry_of-missing_example :
    let t =
      telemetry_of naturals
        (remember naturals (video_at 1000 (some 30) none))
        none
        (video_at 2000 (some 90) (some 90)) in
    (t.fps ≡ none)
    × (t.picture.qp ≡ none)
    × (t.picture.corrupted ≡ none)
    × (t.decode_ms ≡ none)
    × (t.processing_ms ≡ none)
    × (t.activity.frames_decoded ≡ none)
    × (t.activity.inter_frame_delay_ms ≡ none)
    × (t.activity.inter_frame_delay_std_ms ≡ none)
telemetry_of-missing_example =
    telemetry_of-missing naturals none (video_at 1000 (some 30) none)
      (video_at 2000 (some 90) (some 90)) (inr refl)
