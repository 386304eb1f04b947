-- ===== src/Constraints/Identity.antt =====
-- `_all_roles_identified_before_specific_actions` against the order that it checks.
use instrument_benchmark_eva.Prelude.{
  ℕ, ◌<◌, ◌≤◌, ◌≡◌, ◌↔◌, ◌∙◌, sym, ap, refl, Bool, true, false, ◌&&◌, Option, none, some, List, [],
  ◌∷◌, arith, All, All-map, any, select, is_nil, map, Option-cases, Bool-cases, inl, inr, and_iff,
  if◌then◌else◌,
}
use instrument_benchmark_eva.Prelude.Text.{Text, codes, contains, text_eq}
use instrument_benchmark_eva.Prelude.Dict.{text_eq_comm, text_eq_congr}
use instrument_benchmark_eva.Constraints.Events.{SemanticEvent, is, is_some}
use instrument_benchmark_eva.Constraints.Sets.{
  contains_congr, same_set_iff, All-contains, All-lookup,
}
use instrument_benchmark_eva.Constraints.Rules.{
  Dict, put, get, identify, identified_from, roles, is_specific, violates, violations, same_set,
  all_roles_identified,
}

-- The event identifies the role.
abbrev pub identifies : Text → SemanticEvent → Bool
identifies r e = is e.role r && text_eq e.kind (codes "device.identified")

abbrev or_else : {A : Type 0} → Option A → Option A → Option A
or_else none o = o
or_else (some a) o = some a

abbrev id_of : Text → SemanticEvent → Option ℕ
id_of r e = if identifies r e then some e.sequence else none

-- The sequence of the last event that identifies the role.
last_id : Text → List SemanticEvent → Option ℕ
last_id r [] = none
last_id r (e ∷ es) = or_else (last_id r es) (id_of r e)

get-put :
    (k r : Text) (v : ℕ) (d : Dict) → get r (put k v d) ≡ (if text_eq k r then some v else get r d)
unfolding get put
get-put k r v [] = refl
get-put k r v ((j, w) ∷ d) = ground (
  arith,
  get-put k r v d,
  text_eq_congr j k r,
  text_eq_congr k r j,
  text_eq_comm j k,
  text_eq_comm j r,
)

get-identify :
    (r : Text) (e : SemanticEvent) (d : Dict)
    → contains r roles ≡ true
    → get r (identify e d) ≡ or_else (id_of r e) (get r d)
unfolding identify
get-identify r e d known = elim (Option-cases e.role) [
  | inl anonymous ↦ ground arith
  | inr (k, at) ↦ ground (arith, get-put k r e.sequence d, contains_congr k r roles)
]

get-identify_other :
    (r : Text) (e : SemanticEvent) (d : Dict)
    → contains r roles ≡ false
    → get r (identify e d) ≡ get r d
unfolding identify
get-identify_other r e d unknown = elim (Option-cases e.role) [
  | inl anonymous ↦ ground arith
  | inr (k, at) ↦ ground (arith, get-put k r e.sequence d, contains_congr k r roles)
]

-- The dictionary holds for each target role its last identification, and nothing else.
get-identified_from :
    (r : Text) (d : Dict) (es : List SemanticEvent)
    → contains r roles ≡ true
    → get r (identified_from d es) ≡ or_else (last_id r es) (get r d)
unfolding identified_from last_id
get-identified_from r d [] known = refl
get-identified_from r d (e ∷ es) known =
    ground (arith, get-identified_from r (identify e d) es known, get-identify r e d known)

get-identified_from_other :
    (r : Text) (d : Dict) (es : List SemanticEvent)
    → contains r roles ≡ false
    → get r (identified_from d es) ≡ get r d
unfolding identified_from
get-identified_from_other r d [] unknown = refl
get-identified_from_other r d (e ∷ es) unknown =
    get-identified_from_other r (identify e d) es unknown ∙ get-identify_other r e d unknown

contains-keys : (r : Text) (d : Dict) → contains r (map (λ e. e.0) d) ≡ is_some (get r d)
unfolding contains get
contains-keys r [] = refl
contains-keys r ((k, v) ∷ d) = ground (arith, contains-keys r d, text_eq_comm r k)

-- Events in order of their sequences.
abbrev pub InOrder : List SemanticEvent → Type 0
InOrder [] = Unit
InOrder (e ∷ es) = All (λ d. e.sequence ≤ d.sequence) es × InOrder es

last_id-none : (r : Text) (es : List SemanticEvent) → is_some (last_id r es) ≡ any (identifies r) es
unfolding last_id
last_id-none r [] = refl
last_id-none r (e ∷ es) = ground (arith, last_id-none r es)

last_id-lower :
    (r : Text) (k n : ℕ) (es : List SemanticEvent)
    → All (λ d. k ≤ d.sequence) es
    → last_id r es ≡ some n
    → k ≤ n
unfolding last_id
last_id-lower r k n [] h e = absurd (ground arith)
last_id-lower r k n (d ∷ es) h e = elim (Option-cases (last_id r es)) [
  | inl unknown ↦ ground arith
  | inr (n', last) ↦ ground (arith, last_id-lower r k n' es h.1 last)
]

All-without :
    (r : Text) (m : ℕ) (es : List SemanticEvent)
    → any (identifies r) es ≡ false
    → All (λ i. identifies r i ≡ true → i.sequence < m) es
All-without r m [] h = tt
All-without r m (e ∷ es) h = (λ y. absurd (ground arith), All-without r m es (ground arith))

-- In order, a number is above the last identification exactly if it is above all of them.
last_id-bound :
    (r : Text) (m n : ℕ) (es : List SemanticEvent)
    → InOrder es
    → last_id r es ≡ some n
    → (n < m) ↔ All (λ i. identifies r i ≡ true → i.sequence < m) es
unfolding last_id
last_id-bound r m n [] o e = absurd (ground arith)
last_id-bound r m n (d ∷ es) o e = split (last_id r es) refl (last_id-bound r m n es o.1)
  where
    split :
        (l : Option ℕ)
        → last_id r es ≡ l
        → (last_id r es ≡ some n → (n < m) ↔ All (λ i. identifies r i ≡ true → i.sequence < m) es)
        → (n < m) ↔ All (λ i. identifies r i ≡ true → i.sequence < m) (d ∷ es)
    split none l ih =
        let alone : any (identifies r) es ≡ false = ground (arith, last_id-none r es) in
        let here : identifies r d ≡ true = ground arith in
        let at : d.sequence ≡ n = ground arith in
        (
          λ lt. (λ _. omega arith, All-without r m es alone),
          λ h. let lt : d.sequence < m = h.0 here in omega arith,
        )
    split (some k) l ih =
        let same : last_id r es ≡ some n = ground arith in
        let low : d.sequence ≤ n = last_id-lower r d.sequence n es o.0 same in
        (λ lt. (λ _. omega arith, (ih same).0 lt), λ h. (ih same).1 h.1)

is_nil-select_iff :
    {A : Type 0} (p : A → Bool) (es : List A)
    → (is_nil (select p es) ≡ true) ↔ All (λ e. p e ≡ false) es
is_nil-select_iff p [] = (λ _. tt, λ _. refl)
is_nil-select_iff p (e ∷ es) =
    let (to, from) = is_nil-select_iff p es in
    (λ h. (ground arith, to (ground arith)), λ h. ground (arith, from h.1))

-- The order that the check asks for: each target role is identified, and every identification of a
-- role stands before every specific event of that role.
pub record IsIdentifiedFirst (events : List SemanticEvent) : Type 0 where
  pub each_role : All (λ r. any (identifies r) events ≡ true) roles
  pub first :
      All
        (λ e.
          is_specific e ≡ true
          → (r : Text) → e.role ≡ some r
          → All (λ i. identifies r i ≡ true → i.sequence < e.sequence) events)
        events

get-nil : (r : Text) → get r [] ≡ none
unfolding get
get-nil r = refl

module _ (events : List SemanticEvent) where
  abbrev identified : Dict
  identified = identified_from [] events

  get-identified : (r : Text) → contains r roles ≡ true → get r identified ≡ last_id r events
  get-identified r known = get-identified_from r [] events known ∙ ground (arith, get-nil r)

  keys_iff :
      (r : Text)
      → contains r roles ≡ true
      → contains r (map (λ e. e.0) identified) ≡ any (identifies r) events
  keys_iff r known =
      contains-keys r identified ∙ ap is_some (get-identified r known) ∙ last_id-none r events

  no_other_key :
      (r : Text) → contains r (map (λ e. e.0) identified) ≡ true → contains r roles ≡ true
  no_other_key r h = elim (Bool-cases (contains r roles)) [
    | inl known ↦ known
    | inr unknown ↦ ground (
      arith,
      contains-keys r identified,
      get-identified_from_other r [] events unknown,
      get-nil r,
    )
  ]

  same_set-roles :
      (same_set (map (λ e. e.0) identified) roles ≡ true)
      ↔ All (λ r. any (identifies r) events ≡ true) roles
  same_set-roles = (
    λ h.
        All-map (λ r. contains r roles ≡ true) (λ r. any (identifies r) events ≡ true) roles
          (λ r known. sym (keys_iff r known) ∙ ((same_set_iff _ roles).0 h r).1 known)
          (All-contains roles),
    λ h. (same_set_iff _ roles).1 (λ r. (
      no_other_key r,
      λ known.
          keys_iff r known ∙ All-lookup (λ t. any (identifies t) events ≡ true) r roles h known,
    )),
  )

  violates_iff :
      (r : Text) (e : SemanticEvent)
      → InOrder events
      → contains r roles ≡ true
      → e.role ≡ some r
      → any (identifies r) events ≡ true
      → (violates identified e ≡ false)
        ↔ All (λ i. identifies r i ≡ true → i.sequence < e.sequence) events
  violates_iff r e o known at occurs = elim (Option-cases (last_id r events)) [
    | inl never ↦ absurd (ground (arith, last_id-none r events))
    | inr (n, last) ↦
        let (to, from) = last_id-bound r e.sequence n events o last in
        let found : get r identified ≡ some n = get-identified r known ∙ last in
        (
          λ h. to (unfold violates in ground arith),
          λ h. let lt : n < e.sequence = from h in unfold violates in ground arith,
        )
  ]

is_specific-role :
    (e : SemanticEvent)
    → is_specific e ≡ true
    → (r : Text) × (e.role ≡ some r) × (contains r roles ≡ true)
unfolding is_specific
is_specific-role e h = elim (Option-cases e.role) [
  | inl anonymous ↦ absurd (ground arith)
  | inr (r, at) ↦ (r, at, ground arith)
]

specific_known :
    (e : SemanticEvent) (r : Text)
    → is_specific e ≡ true
    → e.role ≡ some r
    → contains r roles ≡ true
unfolding is_specific
specific_known e r specific at = ground arith

unspecific_or : (a b : Bool) → (a ≡ true → b ≡ false) → (a && b) ≡ false
unspecific_or true b h = h refl
unspecific_or false b h = refl

-- On events in order the check passes exactly under that condition. Since it keeps the last
-- identification of a role, one that is repeated after a specific event makes it fail.
pub all_roles_identified_iff :
    (events : List SemanticEvent)
    → InOrder events
    → ((all_roles_identified events).passed ≡ true) ↔ IsIdentifiedFirst events
unfolding all_roles_identified violations
all_roles_identified_iff events o =
    let (nil_to, nil_from) =
      is_nil-select_iff (λ e. is_specific e && violates (identified events) e) events in
    let (set_to, set_from) = same_set-roles events in
    (
      λ h.
          let roles_ : All (λ r. any (identifies r) events ≡ true) roles = set_to (ground arith) in
          record {
            each_role = roles_;
            first =
                All-map (λ e. (is_specific e && violates (identified events) e) ≡ false) _ events
                  (λ e fine specific r at.
                    let known : contains r roles ≡ true = specific_known e r specific at in
                    (violates_iff events r e o known at
                        (All-lookup (λ t. any (identifies t) events ≡ true) r roles roles_ known)).0
                      (ground arith))
                  (nil_to (ground arith));
          },
      λ c. (and_iff _ _).1 (
        set_from c.each_role,
        nil_from (
            All-map _ (λ e. (is_specific e && violates (identified events) e) ≡ false) events
              (λ e fine. unspecific_or (is_specific e) (violates (identified events) e) (λ specific.
                let (r, at, known) = is_specific-role e specific in
                (violates_iff events r e o known at (
                    All-lookup (λ t. any (identifies t) events ≡ true) r roles c.each_role known)).1
                  (fine specific r at)))
              c.first),
      ),
    )
