-- ===== src/Viewer/Tests/Dashboard.antt =====
-- The properties of viewer/src/dashboard.ts at concrete histories, with natural numbers for doubles.
use laptop_as_a_second_monit.Common.{
  ℕ, ◌/◌, ◌*◌, ◌++◌, ◌≡◌, refl, true, none, some, [], ◌∷◌, Str, codes, str_eq, ◌==◌, ◌+◌,
}
use laptop_as_a_second_monit.Viewer.Dashboard.{number, text, other, Metrics, member, reset, run}
use laptop_as_a_second_monit.Viewer.Dashboard.Panel.{Numbers, panel, render}
use laptop_as_a_second_monit.Viewer.Dashboard.History.{last_report, render_host, render_reset}

-- A number is printed by one digit.
abbrev digits : Numbers ℕ
digits = record {
  is_finite = λ n. true;
  is_zero = λ n. n == 0;
  to_fixed = λ n d. (n + 48) ∷ [];
  millions = λ n. n / 1000000;
  percent = λ n. n * 100;
  to_text = λ n. (n + 48) ∷ [];
}

abbrev no_table : ℕ → Str
no_table c = []

abbrev host_stats : Metrics ℕ
host_stats = (codes "type", text (codes "host-stats")) ∷ (codes "queue_depth", number 3) ∷ []

abbrev connection_stats : Metrics ℕ
connection_stats =
    (codes "type", text (codes "connection-stats"))
    ∷ (codes "resetPeer", other true (codes "true"))
    ∷ (codes "state", text (codes "new"))
    ∷ []

abbrev receiver_stats : Metrics ℕ
receiver_stats = (codes "type", text (codes "receiver-stats")) ∷ (codes "freezes", number 2) ∷ []

-- The host's numbers came at 1000, and the receiver's after them; at 6000 they are too old.
render_host_example :
    let s =
      run digits.is_zero
        ((500, some connection_stats) ∷ []
          ++ (1000, some host_stats) ∷ (2000, some receiver_stats) ∷ [])
        reset in
    render digits no_table 6000 s ≡ panel digits no_table s.connection s.receiver []
unfolding member str_eq
render_host_example =
    render_host digits no_table ((500, some connection_stats) ∷ [])
      ((2000, some receiver_stats) ∷ []) 1000 6000 host_stats reset refl (refl, tt)

render_reset_example :
    let s =
      run digits.is_zero
        ((500, some host_stats) ∷ [] ++ (1000, some connection_stats) ∷ (2000, none) ∷ [])
        reset in
    render digits no_table 2500 s
    ≡ panel digits no_table (last_report digits.is_zero connection_stats ((2000, none) ∷ [])) [] []
unfolding member str_eq
render_reset_example =
    render_reset digits no_table ((500, some host_stats) ∷ []) ((2000, none) ∷ []) 1000 2500
      connection_stats reset refl (refl, tt)
