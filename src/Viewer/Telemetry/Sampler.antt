-- ===== src/Viewer/Telemetry/Sampler.antt =====
-- `ReceiverStats` of viewer/src/telemetry.ts, and the `Telemetry` message of shared/protocol.ts without
-- the receiver's events, which the session adds.
use mathlib.Core.Option
use laptop_as_a_second_monit.Common.{ℕ, Bool, Option, none, some, Str, take}
use laptop_as_a_second_monit.Viewer.Telemetry.{
  interval_stats, interval_quality, interval_delays, interval_activity, thousand,
}
use laptop_as_a_second_monit.Viewer.Telemetry.Counters.{
  ℤ, Doubles, Previous, Stats, DelayCounters, Delays, QualityCounters, Quality, ActivityCounters,
  Activity,
}

-- The statistics of the video that the browser receives.
pub record Video (D : Type 0) : Type 0 where
  pub timestamp : D
  pub bytes_received : Option ℕ
  pub packets_received : Option ℕ
  pub packets_lost : Option ℤ
  pub frames_received : Option ℕ
  pub frames_decoded : Option ℕ
  pub frames_rendered : Option ℕ
  pub frames_dropped : Option ℕ
  pub key_frames_decoded : Option ℕ
  pub qp_sum : Option ℕ
  pub pli_count : Option ℕ
  pub nack_count : Option ℕ
  pub fir_count : Option ℕ
  pub freeze_count : Option ℕ
  pub pause_count : Option ℕ
  pub total_freezes_duration : Option D
  pub total_pauses_duration : Option D
  pub total_decode_time : Option D
  pub total_processing_delay : Option D
  pub total_inter_frame_delay : Option D
  pub total_squared_inter_frame_delay : Option D
  pub jitter : Option D
  pub jitter_buffer_delay : Option D
  pub jitter_buffer_target_delay : Option D
  pub jitter_buffer_emitted_count : Option ℕ
  pub decoder_implementation : Option Str
  pub power_efficient_decoder : Option Bool

-- The candidate pair that the transport has selected.
pub record Pair (D : Type 0) : Type 0 where
  pub current_round_trip_time : Option D
  pub available_incoming_bitrate : Option D

pub record Telemetry (D : Type 0) : Type 0 where
  pub loss : Option D
  pub bitrate : Option D
  pub fps : Option D
  pub dropped : Option ℕ
  pub rtt_ms : Option D
  pub jitter_ms : Option D
  pub decoded : Option ℕ
  pub jitter_buffer_ms : Option D
  pub decode_ms : Option D
  pub processing_ms : Option D
  pub freezes : Option ℕ
  pub picture : Quality D
  pub activity : Activity D
  pub available_incoming_bitrate : Option D
  pub decoder : Option Str
  pub power_efficient_decoder : Option Bool

-- What the sampler keeps of the sample before.
pub record ReceiverStats (D : Type 0) : Type 0 where
  pub previous : Option (Previous D)
  pub previous_delays : Option (DelayCounters D)
  pub previous_quality : Option QualityCounters
  pub previous_activity : Option (ActivityCounters D)

abbrev pub no_samples : {D : Type 0} → ReceiverStats D
no_samples = record {
  previous = none;
  previous_delays = none;
  previous_quality = none;
  previous_activity = none;
}

-- `x && y !== undefined && …`: a value of an interval, where the counter is there.
abbrev pub of_interval {ℓ κ} : {A : Type ℓ} {B : Type κ} → (A → Option B) → Option A → Option B
of_interval f none = none
of_interval f (some a) = f a

abbrev pub with_counter {ℓ κ} : {A : Type ℓ} {B : Type κ} → Option A → Option B → Option B
with_counter none o = none
with_counter (some a) o = o

module _ {D : Type 0} (F : Doubles D) where
  abbrev pub counts_of : Video D → Previous D
  counts_of v = record {
    time = v.timestamp;
    bytes = v.bytes_received;
    received = v.packets_received;
    lost = v.packets_lost;
    decoded = v.frames_decoded;
    dropped = v.frames_dropped;
  }

  abbrev pub delays_of : Video D → DelayCounters D
  delays_of v = record {
    time = v.timestamp;
    jitter_buffer_delay = v.jitter_buffer_delay;
    jitter_buffer_emitted = v.jitter_buffer_emitted_count;
    decode_time = v.total_decode_time;
    processing_delay = v.total_processing_delay;
    decoded = v.frames_decoded;
    freezes = v.freeze_count;
  }

  abbrev pub quality_of : Video D → QualityCounters
  quality_of v = record {
    qp_sum = v.qp_sum;
    decoded = v.frames_decoded;
    received = v.frames_received;
    pli = v.pli_count;
    nack = v.nack_count;
    key_frames = v.key_frames_decoded;
  }

  abbrev pub activity_of : Video D → ActivityCounters D
  activity_of v = record {
    time = v.timestamp;
    frames_received = v.frames_received;
    frames_decoded = v.frames_decoded;
    frames_rendered = v.frames_rendered;
    packets_received = v.packets_received;
    packets_lost = v.packets_lost;
    fir_count = v.fir_count;
    freezes_duration = v.total_freezes_duration;
    pause_count = v.pause_count;
    pauses_duration = v.total_pauses_duration;
    inter_frame_delay = v.total_inter_frame_delay;
    squared_inter_frame_delay = v.total_squared_inter_frame_delay;
    jitter_buffer_target_delay = v.jitter_buffer_target_delay;
    jitter_buffer_emitted = v.jitter_buffer_emitted_count;
  }

  abbrev pub in_thousandths : Option D → Option D
  in_thousandths = Option.map (λ s. F.mul s (thousand F))

  unfoldable pub telemetry_of : ReceiverStats D → Option (Pair D) → Video D → Telemetry D
  telemetry_of r pair v =
      let delta = interval_stats F (counts_of v) r.previous in
      let delays = interval_delays F (delays_of v) r.previous_delays in
      record {
        loss =
            with_counter v.packets_received
              (with_counter v.packets_lost (of_interval (λ (s : Stats D). s.loss) delta));
        bitrate = with_counter v.bytes_received (of_interval (λ (s : Stats D). s.bitrate) delta);
        fps = with_counter v.frames_decoded (of_interval (λ (s : Stats D). s.fps) delta);
        dropped = with_counter v.frames_dropped (of_interval (λ (s : Stats D). s.dropped) delta);
        rtt_ms = in_thousandths (of_interval (λ (p : Pair D). p.current_round_trip_time) pair);
        jitter_ms = in_thousandths v.jitter;
        decoded = v.frames_decoded;
        jitter_buffer_ms = of_interval (λ (d : Delays D). d.jitter_buffer_ms) delays;
        decode_ms = of_interval (λ (d : Delays D). d.decode_ms) delays;
        processing_ms = of_interval (λ (d : Delays D). d.processing_ms) delays;
        freezes = of_interval (λ (d : Delays D). d.freezes) delays;
        picture = interval_quality F (quality_of v) r.previous_quality;
        activity = interval_activity F (activity_of v) r.previous_activity;
        available_incoming_bitrate =
            of_interval (λ (p : Pair D). p.available_incoming_bitrate) pair;
        decoder = Option.map (take 64) v.decoder_implementation;
        power_efficient_decoder = v.power_efficient_decoder;
      }

  abbrev pub remember : Video D → ReceiverStats D
  remember v = record {
    previous = some (counts_of v);
    previous_delays = some (delays_of v);
    previous_quality = some (quality_of v);
    previous_activity = some (activity_of v);
  }

  -- `sample`; without a video in the report nothing is kept.
  unfoldable pub sample :
      Option (Pair D) → Option (Video D) → ReceiverStats D → ReceiverStats D × Option (Telemetry D)
  sample pair none r = (r, none)
  sample pair (some v) r = (remember v, some (telemetry_of r pair v))
