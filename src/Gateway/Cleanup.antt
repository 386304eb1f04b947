-- ===== src/Gateway/Cleanup.antt =====
-- What the end of a connection leaves: no session of its client.
use instrument_benchmark_eva.Prelude.{
  ◌↔◌, if_both, ap, sym, subst, ◌≡◌, refl, ◌∙◌, Bool, true, false, Bool-cases, inl, inr, arith,
  none, some, [], ◌∷◌, All, any, select, if◌then◌else◌, ok,
}
use instrument_benchmark_eva.Prelude.Text.{Text, text_eq, text_eq→eq}
use instrument_benchmark_eva.Prelude.Dict.{Dict, find, remove, find-remove}
use instrument_benchmark_eva.Evidence.Journal.{Runtime, Entry}
use instrument_benchmark_eva.World.Data.{WorldSnapshot}
use instrument_benchmark_eva.Instruments.Rack.{Rack, role_for}
use instrument_benchmark_eva.Gateway.Session.{Session, Gateway, record_session, world_snapshot}
use instrument_benchmark_eva.Gateway.Server.{forced_entry, without, force_close, force_close_owner}

-- A name in the list of sessions.
abbrev pub is_named : Text → Dict Session → Bool
is_named j = any (λ e. text_eq e.0 j)

-- The sessions without those of a list.
abbrev removes : Dict Session → Dict Session → Dict Session
removes [] d = d
removes ((i, s) ∷ l) d = removes l (remove i d)

find-removes :
    (j : Text) (l d : Dict Session)
    → find j (removes l d) ≡ (if is_named j l then none else find j d)
find-removes j [] d = refl
find-removes j ((i, s) ∷ l) d = ground (arith, find-removes j l (remove i d), find-remove i j d)

owned_is_named :
    (owner j : Text) (d : Dict Session) (s : Session)
    → find j d ≡ some s
    → text_eq s.owner owner ≡ true
    → is_named j (select (λ e. text_eq e.1.owner owner) d) ≡ true
unfolding find
owned_is_named owner j [] s found owned = ground arith
owned_is_named owner j ((i, t) ∷ d) s found owned = ground (arith, owned_is_named owner j d s)

All-select :
    (P : Text × Session → Type 0) (p : Text × Session → Bool) (d : Dict Session)
    → All P d
    → All P (select p d)
All-select P p [] h = tt
All-select P p (e ∷ d) (x, h) =
    if_both (All P) (p e) _ _ (x, All-select P p d h) (All-select P p d h)

-- No name stands twice, as in a dictionary.
abbrev pub IsUnique : Dict Session → Type 0
IsUnique [] = Unit
IsUnique ((i, s) ∷ d) = (is_named i d ≡ false) × IsUnique d

is_named-select :
    (j : Text) (p : Text × Session → Bool) (d : Dict Session)
    → is_named j d ≡ false
    → is_named j (select p d) ≡ false
is_named-select j p [] h = refl
is_named-select j p (e ∷ d) h = ground (arith, is_named-select j p d)

foreign_is_not_named :
    (owner j : Text) (d : Dict Session) (s : Session)
    → IsUnique d
    → find j d ≡ some s
    → text_eq s.owner owner ≡ false
    → is_named j (select (λ e. text_eq e.1.owner owner) d) ≡ false
unfolding find
foreign_is_not_named owner j [] s unique found foreign = refl
foreign_is_not_named owner j ((i, t) ∷ d) s (once, unique) found foreign =
    elim (Bool-cases (text_eq i j)) [
      | inr other ↦ ground (arith, foreign_is_not_named owner j d s unique)
      | inl same ↦
          let absent : is_named j d ≡ false =
            subst (λ k. is_named k d ≡ false) (text_eq→eq i j same) once in
          ground (arith, is_named-select j (λ e. text_eq e.1.owner owner) d absent)
    ]

module _ {F : Type 0} ⦃rt : Runtime F⦄ where
  -- The rack knows the role of each resource of the sessions.
  abbrev pub HasRole : Rack F → Text × Session → Type 0
  HasRole r e = (role : Text) × (find e.1.resource r.roles ≡ some role)

  -- Recording a session whose resource has a role succeeds and touches the journal alone.
  record_session-keeps :
      (sid resource role : Text) (before : WorldSnapshot F) (entry : Entry F) (g : Gateway F)
      → find resource g.rack.roles ≡ some role
      → let x = record_session sid resource before entry g in
        (x.0 ≡ ok tt) × (x.1.rack ≡ g.rack) × (x.1.sessions ≡ g.sessions)
  unfolding record_session role_for
  record_session-keeps sid resource role before entry g known =
      (ground arith, ground arith, ground arith)

  force_close-removes :
      (l : Dict Session) (g : Gateway F)
      → All (HasRole g.rack) l
      → ((force_close l g).0 ≡ ok tt) × ((force_close l g).1.sessions ≡ removes l g.sessions)
  unfolding force_close
  force_close-removes [] g known = (refl, refl)
  force_close-removes ((i, s) ∷ l) g ((role, e), known) =
      let state = world_snapshot g in
      let g' = (record_session i s.resource state (forced_entry state) g).1 in
      let (recorded, same_rack, same_sessions) =
        record_session-keeps i s.resource role state (forced_entry state) g e in
      let (closed, left) =
        force_close-removes l (without i g')
          (subst (λ r. All (HasRole r) l) (sym same_rack) known) in
      let left' : removes l (remove i g'.sessions) ≡ removes l (remove i g.sessions) =
        ap (λ d. removes l (remove i d)) same_sessions in
      (ground (arith, recorded, closed), ground (arith, recorded, left ∙ left'))

  -- If the rack knows the role of the resource of every session, and no name stands twice, the end
  -- of a client's connection raises nothing, and the sessions that are left are exactly those of
  -- the other clients.
  pub force_close_owner-leaves :
      (owner : Text) (g : Gateway F)
      → All (HasRole g.rack) g.sessions
      → IsUnique g.sessions
      → ((force_close_owner owner g).0 ≡ ok tt)
        × ((j : Text) (s : Session)
            → (find j (force_close_owner owner g).1.sessions ≡ some s)
              ↔ ((find j g.sessions ≡ some s) × (text_eq s.owner owner ≡ false)))
  unfolding force_close_owner
  force_close_owner-leaves owner g known unique =
      let leaked = select (λ e. text_eq e.1.owner owner) g.sessions in
      let (closed, left) = force_close-removes leaked g (All-select _ _ g.sessions known) in
      (
        closed,
        λ j s. (
          λ found. elim (Bool-cases (text_eq s.owner owner)) [
            | inl owned ↦
                ground (
                  arith,
                  left,
                  find-removes j leaked g.sessions,
                  owned_is_named owner j g.sessions s,
                )
            | inr foreign ↦ ground (arith, left, find-removes j leaked g.sessions)
          ],
          λ (there, foreign). ground (
            arith,
            left,
            find-removes j leaked g.sessions,
            foreign_is_not_named owner j g.sessions s unique there foreign,
          ),
        ),
      )
