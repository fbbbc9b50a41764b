-- ===== src/Viewer/Telemetry.antt =====
-- viewer/src/telemetry.ts: what changed over an interval, from the browser's cumulative counters. A count
-- is a natural number (the lost packets an integer, since duplicates can lower them); times, durations and
-- quotients are doubles, whose arithmetic is an argument. `none` is a counter that the browser does not
-- publish, and a value that is reported as null.
pub mod Counters
pub mod Sampler
pub mod Intervals
use mathlib.Core.Option
use laptop_as_a_second_monit.Common.{
  ℕ, suc, ◌+◌, ◌-◌, ◌*◌, Bool, true, false, ◌&&◌, ◌||◌, not, Option, none, some, ltb, leb, max,
  if◌then◌else◌,
}
use laptop_as_a_second_monit.Viewer.Telemetry.Counters.{
  ℤ, Doubles, Previous, Stats, DelayCounters, Delays, QualityCounters, Quality, ActivityCounters,
  Activity, pos, negsuc,
}

-- `Math.max(0, a - b)`, of counts and of integers.
abbrev pub difference : Option ℕ → Option ℕ → Option ℕ
difference (some a) (some b) = some (a - b)
difference _ _ = none

abbrev pub growth : ℤ → ℤ → ℕ
growth (pos a) (pos b) = a - b
growth (pos a) (negsuc b) = a + suc b
growth (negsuc a) (pos b) = 0
growth (negsuc a) (negsuc b) = b - a

abbrev pub lost_difference : Option ℤ → Option ℤ → Option ℕ
lost_difference (some a) (some b) = some (growth a b)
lost_difference _ _ = none

-- `delta`: a counter that went down belongs to a new stream.
abbrev pub delta : Option ℕ → Option ℕ → Option ℕ
delta (some a) (some b) = if ltb a b then none else some (a - b)
delta _ _ = none

-- Both counters are there, and the first is below the second.
abbrev pub went_down : Option ℕ → Option ℕ → Bool
went_down (some a) (some b) = ltb a b
went_down _ _ = false

abbrev pub no_activity : {D : Type 0} → Activity D
no_activity = record {
  interval_ms = none;
  frames_received = none;
  frames_decoded = none;
  frames_rendered = none;
  packets_received = none;
  packets_lost = none;
  fir = none;
  freeze_ms = none;
  pauses = none;
  pause_ms = none;
  inter_frame_delay_ms = none;
  inter_frame_delay_std_ms = none;
  jitter_buffer_target_ms = none;
}

-- `packets === null` makes it null too.
abbrev pub lost_packets : Option ℕ → Option ℤ → Option ℤ → Option ℕ
lost_packets (some n) a b = lost_difference a b
lost_packets none a b = none

module _ {D : Type 0} (F : Doubles D) where
  abbrev pub thousand : D
  thousand = F.of_nat 1000

  -- `current.time <= previous.time`, for times that are numbers.
  abbrev pub is_later : D → D → Bool
  is_later a b = F.less b a

  abbrev pub delta_seconds : Option D → Option D → Option D
  delta_seconds (some a) (some b) = if F.less a b then none else some (F.sub a b)
  delta_seconds _ _ = none

  abbrev pub in_ms : Option D → Option D
  in_ms = Option.map (λ s. F.mul s thousand)

  abbrev pub loss_of : Option ℕ → Option ℕ → Option D
  loss_of (some lost) (some received) =
      some (F.div (F.of_nat lost) (F.of_nat (max 1 (received + lost))))
  loss_of _ _ = none

  unfoldable pub stats_between : Previous D → Previous D → Stats D
  stats_between current previous =
      let seconds = F.div (F.sub current.time previous.time) thousand in
      record {
        loss =
            loss_of (lost_difference current.lost previous.lost)
              (difference current.received previous.received);
        bitrate =
            Option.map (λ n. F.div (F.of_nat (n * 8)) seconds)
              (difference current.bytes previous.bytes);
        fps =
            Option.map (λ n. F.div (F.of_nat n) seconds)
              (difference current.decoded previous.decoded);
        dropped = difference current.dropped previous.dropped;
      }

  -- `intervalStats`
  unfoldable pub interval_stats : Previous D → Option (Previous D) → Option (Stats D)
  interval_stats current none = none
  interval_stats current (some previous) =
      if not (is_later current.time previous.time) || went_down current.bytes previous.bytes
      then none
      else some (stats_between current previous)

  -- A mean, where there were frames.
  abbrev pub mean_qp : Option ℕ → Option ℕ → Option D
  mean_qp (some (suc n)) (some q) = some (F.div (F.of_nat q) (F.of_nat (suc n)))
  mean_qp _ _ = none

  -- `intervalQuality`
  unfoldable pub interval_quality : QualityCounters → Option QualityCounters → Quality D
  interval_quality current none = record {
    qp = none;
    corrupted = none;
    pli = none;
    nack = none;
    key_frames_decoded = none;
  }
  interval_quality current (some previous) =
      let frames = difference current.decoded previous.decoded in
      record {
        qp = mean_qp frames (difference current.qp_sum previous.qp_sum);
        corrupted = difference (difference current.received previous.received) frames;
        pli = difference current.pli previous.pli;
        nack = difference current.nack previous.nack;
        key_frames_decoded = difference current.key_frames previous.key_frames;
      }

  abbrev pub per_frame : Option D → Option D → Option ℕ → Option ℕ → Option D
  per_frame (some sum) (some before) (some n) (some m) =
      if ltb m n && not (F.less (F.sub sum before) (F.of_nat 0))
      then some (F.div (F.mul (F.sub sum before) thousand) (F.of_nat (n - m)))
      else none
  per_frame _ _ _ _ = none

  unfoldable pub delays_between : DelayCounters D → DelayCounters D → Delays D
  delays_between current previous = record {
    jitter_buffer_ms =
        per_frame current.jitter_buffer_delay previous.jitter_buffer_delay
          current.jitter_buffer_emitted previous.jitter_buffer_emitted;
    decode_ms = per_frame current.decode_time previous.decode_time current.decoded previous.decoded;
    processing_ms =
        per_frame current.processing_delay previous.processing_delay current.decoded
          previous.decoded;
    freezes = difference current.freezes previous.freezes;
  }

  -- `intervalDelays`
  unfoldable pub interval_delays : DelayCounters D → Option (DelayCounters D) → Option (Delays D)
  interval_delays current none = none
  interval_delays current (some previous) =
      if is_later current.time previous.time then some (delays_between current previous) else none

  abbrev pub per_count : Option D → Option ℕ → Option D
  per_count (some sum) (some (suc n)) = some (F.div sum (F.of_nat (suc n)))
  per_count _ _ = none

  -- The spread from the running sums, where there is a mean.
  abbrev pub spread_of : Option D → Option D → Option D
  spread_of (some mean) (some square) =
      let variance = F.sub square (F.mul mean mean) in
      some (F.sqrt (if F.less variance (F.of_nat 0) then F.of_nat 0 else variance))
  spread_of _ _ = none

  unfoldable pub activity_between : ActivityCounters D → ActivityCounters D → Activity D
  activity_between current previous =
      let decoded = delta current.frames_decoded previous.frames_decoded in
      let packets = delta current.packets_received previous.packets_received in
      let mean =
        per_count (delta_seconds current.inter_frame_delay previous.inter_frame_delay) decoded in
      let square =
        per_count
          (delta_seconds current.squared_inter_frame_delay previous.squared_inter_frame_delay)
          decoded in
      record {
        interval_ms = some (F.sub current.time previous.time);
        frames_received = delta current.frames_received previous.frames_received;
        frames_decoded = decoded;
        frames_rendered = delta current.frames_rendered previous.frames_rendered;
        packets_received = packets;
        packets_lost = lost_packets packets current.packets_lost previous.packets_lost;
        fir = delta current.fir_count previous.fir_count;
        freeze_ms = in_ms (delta_seconds current.freezes_duration previous.freezes_duration);
        pauses = delta current.pause_count previous.pause_count;
        pause_ms = in_ms (delta_seconds current.pauses_duration previous.pauses_duration);
        inter_frame_delay_ms = in_ms mean;
        inter_frame_delay_std_ms = in_ms (spread_of mean square);
        jitter_buffer_target_ms =
            per_count
              (in_ms (
                delta_seconds current.jitter_buffer_target_delay
                  previous.jitter_buffer_target_delay))
              (delta current.jitter_buffer_emitted previous.jitter_buffer_emitted);
      }

  -- `intervalActivity`
  unfoldable pub interval_activity : ActivityCounters D → Option (ActivityCounters D) → Activity D
  interval_activity current none = no_activity
  interval_activity current (some previous) =
      if is_later current.time previous.time then activity_between current previous else no_activity
