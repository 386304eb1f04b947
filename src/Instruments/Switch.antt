-- ===== src/Instruments/Switch.antt =====
-- `SwitchModel`, which has no attributes of its own.
use instrument_benchmark_eva.Prelude.{
  Option, none, some, List, [], ◌∷◌, ◌++◌, not, ◌&&◌, if◌then◌else◌, Exec, ok, pure, lift, ◌>>=◌,
  ◌>>◌,
}
use instrument_benchmark_eva.Prelude.Text.{Text, codes, text_eq, starts_with, upper, join}
use instrument_benchmark_eva.Host.{Host}
use instrument_benchmark_eva.World.Data.{SemanticAction, texts, snapshot}
use instrument_benchmark_eva.Instruments.Base.{Seat, Instrument, act, undefined_header, line}
use instrument_benchmark_eva.Instruments.Parse.{parse_routes}

abbrev pub SwitchModel : Type 0
SwitchModel = Unit {0}

abbrev pub switch_routes : {F : Type 0} → Text → List Text → SemanticAction F
switch_routes kind routes = record { kind = kind; arguments = (codes "routes", texts routes) ∷ [] }

abbrev pub switch_open_all : {F : Type 0} → SemanticAction F
switch_open_all = record { kind = codes "switch.open_all"; arguments = [] }

module _ {F : Type 0} ⦃h : Host F⦄ where
  unfoldable pub switch_reset : Exec (Seat SwitchModel F) (Unit {0})
  switch_reset = act switch_open_all

  unfoldable pub act_on_routes : Text → Text → Exec (Seat SwitchModel F) (Option Text)
  act_on_routes kind text = do
    routes ← lift (parse_routes text)
    act (switch_routes kind routes)
    pure none

  unfoldable pub switch_handle : Text → Exec (Seat SwitchModel F) (Option Text)
  switch_handle text s =
      let command = upper text in
      if starts_with command (codes "ROUT:CLOS ")
      then act_on_routes (codes "switch.close") text s
      else if starts_with command (codes "ROUT:OPEN ")
          && not (text_eq command (codes "ROUT:OPEN:ALL"))
      then act_on_routes (codes "switch.open") text s
      else if text_eq command (codes "ROUT:OPEN:ALL")
      then (do act switch_open_all; pure none) s
      else if text_eq command (codes "ROUT:CLOS?")
      then (
        ok (
            some (
              line
                (codes "(@" ++ (join (codes ",") (snapshot s.world).closed_routes ++ codes ")")))),
        s,
      )
      else undefined_header text s

  abbrev pub switch : Instrument SwitchModel F
  switch = record {
    identity = codes "IAB,Virtual-34980A,SW001,1.0";
    handle = switch_handle;
    reset = switch_reset;
  }
