-- ===== src/Viewer/Telemetry/Counters.antt =====
-- The counters of viewer/src/telemetry.ts, and what is made from them.
use laptop_as_a_second_monit.Common.{ℕ, Bool, Option}

-- An integer; `negsuc n` is -(n + 1).
pub data ℤ : Type 0 where
  pos negsuc : ℕ → ℤ

-- The operations on doubles that the source uses.
pub record Doubles (D : Type 0) : Type 0 where
  pub of_nat : ℕ → D
  pub add : D → D → D
  pub sub : D → D → D
  pub mul : D → D → D
  pub div : D → D → D
  pub sqrt : D → D
  pub less : D → D → Bool

pub record Previous (D : Type 0) : Type 0 where
  pub time : D
  pub bytes : Option ℕ
  pub received : Option ℕ
  pub lost : Option ℤ
  pub decoded : Option ℕ
  pub dropped : Option ℕ

pub record Stats (D : Type 0) : Type 0 where
  pub loss : Option D
  pub bitrate : Option D
  pub fps : Option D
  pub dropped : Option ℕ

pub record DelayCounters (D : Type 0) : Type 0 where
  pub time : D
  pub jitter_buffer_delay : Option D
  pub jitter_buffer_emitted : Option ℕ
  pub decode_time : Option D
  pub processing_delay : Option D
  pub decoded : Option ℕ
  pub freezes : Option ℕ

pub record Delays (D : Type 0) : Type 0 where
  pub jitter_buffer_ms : Option D
  pub decode_ms : Option D
  pub processing_ms : Option D
  pub freezes : Option ℕ

pub record QualityCounters : Type 0 where
  pub qp_sum : Option ℕ
  pub decoded : Option ℕ
  pub received : Option ℕ
  pub pli : Option ℕ
  pub nack : Option ℕ
  pub key_frames : Option ℕ

pub record Quality (D : Type 0) : Type 0 where
  pub qp : Option D
  pub corrupted : Option ℕ
  pub pli : Option ℕ
  pub nack : Option ℕ
  pub key_frames_decoded : Option ℕ

pub record ActivityCounters (D : Type 0) : Type 0 where
  pub time : D
  pub frames_received : Option ℕ
  pub frames_decoded : Option ℕ
  pub frames_rendered : Option ℕ
  pub packets_received : Option ℕ
  pub packets_lost : Option ℤ
  pub fir_count : Option ℕ
  pub freezes_duration : Option D
  pub pause_count : Option ℕ
  pub pauses_duration : Option D
  pub inter_frame_delay : Option D
  pub squared_inter_frame_delay : Option D
  pub jitter_buffer_target_delay : Option D
  pub jitter_buffer_emitted : Option ℕ

pub record Activity (D : Type 0) : Type 0 where
  pub interval_ms : Option D
  pub frames_received : Option ℕ
  pub frames_decoded : Option ℕ
  pub frames_rendered : Option ℕ
  pub packets_received : Option ℕ
  pub packets_lost : Option ℕ
  pub fir : Option ℕ
  pub freeze_ms : Option D
  pub pauses : Option ℕ
  pub pause_ms : Option D
  pub inter_frame_delay_ms : Option D
  pub inter_frame_delay_std_ms : Option D
  pub jitter_buffer_target_ms : Option D
