-- ===== src/Instruments/Safety.antt =====
-- The rack can always be made safe.
use instrument_benchmark_eva.Prelude.{Result, ◌≡◌, refl, Bool, true, false, is_nil, ok}
use instrument_benchmark_eva.Prelude.Text.{text_eq}
use instrument_benchmark_eva.Host.{Host}
use instrument_benchmark_eva.World.Data.{snapshot, is_nil-sorted}
use instrument_benchmark_eva.World.Apply.{
  apply, set_psu_output, set_awg_output, open_all, get_or, boolean,
}
use instrument_benchmark_eva.Instruments.Rack.{Rack, force_safe}

module _ {F : Type 0} ⦃h : Host F⦄ where
  -- A method returned, and the world it leaves reports itself safe.
  abbrev pub IsMadeSafe : Result (Unit {0}) × Rack F → Type 0
  IsMadeSafe x = (x.0 ≡ ok tt) × ((snapshot x.1.world).safe ≡ true)

  -- Whatever the rack, making it safe raises nothing and leaves a world that reports itself safe.
  pub force_safe-safe : (r : Rack F) → IsMadeSafe (force_safe r)
  unfolding force_safe snapshot apply set_psu_output set_awg_output open_all get_or boolean text_eq
  force_safe-safe r = go _ _ _ refl refl refl
    where
      go :
          (a p c : Bool)
          → r.world.awg_output ≡ a
          → r.world.psu_output ≡ p
          → is_nil r.world.closed_routes ≡ c
          → IsMadeSafe (force_safe r)
      go true true true a p c = (simp (a, p, c, is_nil-sorted), simp (a, p, c, is_nil-sorted))
      go true true false a p c = (simp (a, p, c, is_nil-sorted), simp (a, p, c, is_nil-sorted))
      go true false true a p c = (simp (a, p, c, is_nil-sorted), simp (a, p, c, is_nil-sorted))
      go true false false a p c = (simp (a, p, c, is_nil-sorted), simp (a, p, c, is_nil-sorted))
      go false true true a p c = (simp (a, p, c, is_nil-sorted), simp (a, p, c, is_nil-sorted))
      go false true false a p c = (simp (a, p, c, is_nil-sorted), simp (a, p, c, is_nil-sorted))
      go false false true a p c = (simp (a, p, c, is_nil-sorted), simp (a, p, c, is_nil-sorted))
      go false false false a p c = (simp (a, p, c, is_nil-sorted), simp (a, p, c, is_nil-sorted))
