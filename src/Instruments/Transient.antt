-- ===== src/Instruments/Transient.antt =====
-- The faults that the rack injects.
use instrument_benchmark_eva.Prelude.{
  ℕ, zero, suc, ◌-◌, ◌≡◌, ◌∙◌, ◌<◌, ap, refl, Option, some, List, [], ◌∷◌, ◌++◌, replicate, arith,
  Result, err, command_error,
}
use instrument_benchmark_eva.Prelude.Text.{Text, codes, text_eq_refl, upper}
use instrument_benchmark_eva.Prelude.Dict.{find}
use instrument_benchmark_eva.Host.{Host}
use instrument_benchmark_eva.Instruments.Rack.{
  Rack, Target, write, exchange_target, role_for, is_transient, plain_command,
}

-- The write of the payload to the resource is the one that the specification makes fail.
pub record IsFaulty {F : Type 0} (resource payload : Text) (target : Target) (r : Rack F)
    : Type 0 where
  pub known : find resource r.models ≡ some target
  pub role : Text
  pub named : find resource r.roles ≡ some role
  pub faulty_role : r.world.spec.transient_error_role ≡ some role
  pub command : Text
  pub faulty : r.world.spec.transient_error_command ≡ some command
  pub same : plain_command payload ≡ upper command

module _ {F : Type 0} ⦃h : Host F⦄ where
  -- While faults are left, such a write uses up one of them.
  write_faults :
      (resource payload role command : Text) (target : Target) (r : Rack F)
      → find resource r.models ≡ some target
      → find resource r.roles ≡ some role
      → r.world.spec.transient_error_role ≡ some role
      → r.world.spec.transient_error_command ≡ some command
      → plain_command payload ≡ upper command
      → 0 < r.transient_errors_remaining
      → write resource payload r ≡ (
        err (command_error (codes "transient communication error")),
        record r { transient_errors_remaining = r.transient_errors_remaining - 1 },
      )
  unfolding write role_for is_transient
  write_faults resource payload role command target r known named faulty_role faulty same left =
      ground (arith, text_eq_refl role, text_eq_refl (upper command))

  -- The results of the same write, done again and again, and the rack it leaves.
  abbrev pub retries : ℕ → Text → Text → Rack F → List (Result (Option Text)) × Rack F
  retries zero resource payload r = ([], r)
  retries (suc n) resource payload r =
      let (o, r') = write resource payload r in
      let (os, r'') = retries n resource payload r' in (o ∷ os, r'')

  -- Such a write reaches the instrument once no fault is left.
  write_runs :
      (resource payload : Text) (target : Target) (r : Rack F)
      → IsFaulty resource payload target r
      → r.transient_errors_remaining ≡ 0
      → write resource payload r ≡ exchange_target target payload r
  unfolding write role_for is_transient
  write_runs resource payload target r f none_left = ground (arith, f.known)

  spent : Rack F → Rack F
  spent r = record r { transient_errors_remaining = 0 }

  retries_from :
      (n : ℕ) (resource payload : Text) (target : Target) (r : Rack F)
      → IsFaulty resource payload target r
      → r.transient_errors_remaining ≡ n
      → retries (suc n) resource payload r ≡ (
        replicate n (err (command_error (codes "transient communication error")))
            ++ ((exchange_target target payload (spent r)).0 ∷ []),
        (exchange_target target payload (spent r)).1,
      )
  unfolding spent
  retries_from zero resource payload target r f e =
      let same : record r { transient_errors_remaining = 0 } ≡ r = ground arith in
      rw (write_runs resource payload target r f e, same) refl
  retries_from (suc n) resource payload target r f e =
      let r' : Rack F = record r {
        transient_errors_remaining = r.transient_errors_remaining - 1;
      } in
      let f' : IsFaulty resource payload target r' = record {
        known = f.known;
        role = f.role;
        named = f.named;
        faulty_role = f.faulty_role;
        command = f.command;
        faulty = f.faulty;
        same = f.same;
      } in
      ap
        (λ x. (
          x.0 ∷ (retries (suc n) resource payload x.1).0,
          (retries (suc n) resource payload x.1).1,
        ))
        (write_faults resource payload f.role f.command target r f.known f.named f.faulty_role
          f.faulty f.same (omega (arith, e)))
      ∙ ap (λ y. (err (command_error (codes "transient communication error")) ∷ y.0, y.1))
          (retries_from n resource payload target r' f' (omega (arith, e)))

  -- A command that the specification makes fail is refused exactly as often as faults are left, and the rack is not changed
  -- meanwhile but for the count of the faults; done once more, it reaches the instrument.
  pub retries-succeed :
      (resource payload : Text) (target : Target) (r : Rack F)
      → IsFaulty resource payload target r
      → retries (suc r.transient_errors_remaining) resource payload r ≡ (
        replicate r.transient_errors_remaining
              (err (command_error (codes "transient communication error")))
            ++ ((exchange_target target payload (record r { transient_errors_remaining = 0 })).0
                ∷ []),
        (exchange_target target payload (record r { transient_errors_remaining = 0 })).1,
      )
  unfolding spent
  retries-succeed resource payload target r f =
      retries_from r.transient_errors_remaining resource payload target r f refl
