-- ===== src/DemoService/Actions/Admitted.antt =====
-- What createDemoPassport established when it answers.
use nightpass.Base.{
  ok-inj, find-Among, ℕ, ◌≡◌, ◌⊎◌, inl, inr, refl, subst, arith, Bool, true, false, not, ◌&&◌, [],
  ◌∷◌, ◌++◌, find, Option, none, some, is_some, Text, text_eq, text_eq_iff, Among, any-Among,
  Result, ok, err, >>=-inv, require, require-eq-ok, and-eq-true_iff, ◌==◌,
}
use nightpass.Base.JsNumber.{JsNumber, int, num_lt}
use nightpass.Base.Splits.{Env}
use nightpass.DemoClaims.{ClaimSet}
use nightpass.DemoClaims.Resolved.{ResolvedClaim, resolved_number, resolved_member, demo_claim_list}
use nightpass.DemoValidation.{
  ProfileError, RawInput, DemoInput, DemoValidation, rejected, accepted, validate_demo_input,
}
use nightpass.DemoValidation.Accepted.{IsInput, validate_demo_input-IsInput}
use nightpass.DemoService.{
  enabled, contract_address, max_queue, max_per_ip_per_day, max_per_day, max_per_tester,
  ip_exempt_from_cap,
}
use nightpass.DemoService.Queue.{Demo, queue_depth, admit}
use nightpass.DemoService.Caps.{
  TesterRow, Tables, Refusal, busy, address_budget, daily_budget, tester_used, Visitor, has_left,
  count_passport, reached, runs_today, client_runs_today, new_run, queue_ok, client_ok, day_ok,
  tester_ok, gate,
}
use nightpass.DemoService.Actions.{
  not_enabled, no_vault, found_tester, parsed, checked, passed, Created, numeric_primary,
  create_demo_passport,
}
use nightpass.DemoService.Execute.{resolved_field}

-- A claim on a number.
abbrev pub IsNumber : ResolvedClaim → Type 0
IsNumber (resolved_number f v t d u l) = Unit
IsNumber _ = ⊥

-- The gate had room at the depth, the address, the day and the tester had budget left, and the tester's count
-- and the run were written.
pub record Granted (number : Text → JsNumber) (env : Env) (today depth : ℕ) (visitor : Visitor)
    (tester : ℕ) (passport_id : Text) (run_id : ℕ) (db changed : Tables) : Type 0 where
  pub room : reached (max_queue number env) depth ≡ false
  pub address :
      (ip_exempt_from_cap env visitor.ip ≡ true)
      ⊎ (reached (max_per_ip_per_day number env) (client_runs_today db today visitor.client_key)
          ≡ false)
  pub day : reached (max_per_day number env) (runs_today db today) ≡ false
  pub quota :
      (t : TesterRow) × Among t db.testers
      × (t.id ≡ tester)
      × (num_lt (int t.passport_count) (max_per_tester number env) ≡ true)
  pub counted : changed.testers ≡ count_passport (max_per_tester number env) tester db.testers
  pub queued_run : changed.runs ≡ db.runs ++ (new_run today visitor tester passport_id run_id ∷ [])

gate-Granted :
    (number : Text → JsNumber) (env : Env) (today depth : ℕ) (visitor : Visitor) (tester : ℕ)
    (passport_id : Text) (run_id : ℕ) (db changed : Tables)
    → gate number env today depth visitor tester passport_id run_id db ≡ ok changed
    → Granted number env today depth visitor tester passport_id run_id db changed
unfolding gate
gate-Granted number env today depth visitor tester passport_id run_id db changed h =
    let (_, room, h₁) = >>=-inv (require (queue_ok number env depth) busy) _ h in
    let (_, address, h₂) =
      >>=-inv (require (client_ok number env today visitor db) address_budget) _ h₁ in
    let (_, day, h₃) = >>=-inv (require (day_ok number env today db) daily_budget) _ h₂ in
    let (_, quota, h₄) = >>=-inv (require (tester_ok number env tester db) tester_used) _ h₃ in
    let (t, member, left) =
      (any-Among (has_left (max_per_tester number env) tester) db.testers).0
        (require-eq-ok _ tester_used quota) in
    let (mine, below) = (and-eq-true_iff _ _).0 left in
    let room_ok = require-eq-ok _ busy room in
    let day_is_ok = require-eq-ok _ daily_budget day in
    subst (Granted number env today depth visitor tester passport_id run_id db) (ok-inj h₄)
      (record {
        room = not-true _ room_ok;
        address = either _ _ (require-eq-ok _ address_budget address);
        day = not-true _ day_is_ok;
        quota = (t, member, same_id t.id tester mine, below);
        counted = refl;
        queued_run = refl;
      })
  where
    not-true : (b : Bool) → not b ≡ true → b ≡ false
    not-true false k = refl
    not-true true k = absurd (cc)

    either : (b c : Bool) → not (not b && c) ≡ true → (b ≡ true) ⊎ (c ≡ false)
    either true c k = inl refl
    either false false k = inr refl
    either false true k = absurd (cc)

    same_id : (m n : ℕ) → (m == n) ≡ true → m ≡ n
    same_id m n k = ground arith

-- The demo is on and has a vault; the tester was known; the body is an input of a profile, with a
-- number as its primary claim; the gate was passed at the depth under the lock; and what is answered and
-- queued later is the run that was written.
pub record Admitted (number : Text → JsNumber) (env : Env) (sets : Text → Option ClaimSet)
    (today : ℕ) (visitor : Visitor) (tester_id : Text) (raw : Option RawInput) (before : Tables)
    (s : Demo) (db : Tables) (later : Demo → Demo) (c : Created) : Type 0 where
  pub on : enabled env ≡ true
  pub vault : is_some (contract_address env) ≡ true
  pub tester : TesterRow
  pub known : Among tester before.testers
  pub named : tester.tester_id ≡ tester_id
  pub body : RawInput
  pub given : raw ≡ some body
  pub valid : IsInput sets body c.context.input
  pub primary : ResolvedClaim
  pub primary_claim :
      Among primary (demo_claim_list sets c.context.input.profile c.context.input.claims)
  pub primary_field : resolved_field primary ≡ c.context.input.profile.primary
  pub primary_number : IsNumber primary
  pub granted :
      Granted number env today
        (queue_depth s)
        visitor
        tester.id
        c.passport_id
        s.next_run
        db
        c.tables
  pub ids : (c.run_id ≡ s.next_run) × (c.context.run_id ≡ s.next_run)
  pub same_passport : c.context.passport_id ≡ c.passport_id
  pub same_tester : (c.context.tester_row_id ≡ tester.id) × (c.context.tester_id ≡ tester_id)
  pub later_state : c.demo ≡ later (admit s)
  pub position : c.queue_position ≡ queue_depth c.demo

found_tester-inv : (o : Option TesterRow) (t : TesterRow) → found_tester o ≡ ok t → o ≡ some t
found_tester-inv none t h = absurd (cc)
found_tester-inv (some u) t h = cc

parsed-inv : (o : Option RawInput) (b : RawInput) → parsed o ≡ ok b → o ≡ some b
parsed-inv none b h = absurd (cc)
parsed-inv (some c) b h = cc

checked-inv :
    (r : Result ProfileError DemoValidation) (i : DemoInput)
    → checked r ≡ ok i
    → r ≡ ok (accepted i)
checked-inv (err e) i h = absurd (cc)
checked-inv (ok (rejected errors)) i h = absurd (cc)
checked-inv (ok (accepted j)) i h = cc

passed-inv : (r : Result Refusal Tables) (db : Tables) → passed r ≡ ok db → r ≡ ok db
passed-inv (err e) db h = absurd (cc)
passed-inv (ok changed) db h = cc

numeric_primary-inv :
    (o : Option ResolvedClaim) (c : ResolvedClaim)
    → numeric_primary o ≡ ok c
    → (o ≡ some c) × IsNumber c
numeric_primary-inv none c h = absurd (cc)
numeric_primary-inv (some (resolved_number f v t d u l)) c h =
    subst (λ c. (some (resolved_number f v t d u l) ≡ some c) × IsNumber c) (ok-inj h) (refl, tt)
numeric_primary-inv (some (resolved_member f v s n l)) c h = absurd (cc)

-- If a passport is granted, the demo is on and has a vault; the tester that is asked for was known; the body is a valid
-- input of a profile, whose primary claim is a number; under the lock the queue was shorter than its limit, the address (unless it
-- is exempt), the day and the tester's row were below theirs, the tester's passport was counted and
-- exactly one run was added; the context to be queued has that run's id, passport and tester; and the position that is
-- answered is the depth of the queue at the answer, whatever happened in between.
pub create_demo_passport-Admitted :
    (number : Text → JsNumber) (env : Env) (sets : Text → Option ClaimSet) (today : ℕ)
    (visitor : Visitor) (tester_id : Text) (raw : Option RawInput) (passport_id : Text)
    (before : Tables) (s : Demo) (db : Tables) (later : Demo → Demo) (c : Created)
    → create_demo_passport number env sets today visitor tester_id raw passport_id before s db later
      ≡ ok c
    → Admitted number env sets today visitor tester_id raw before s db later c
unfolding create_demo_passport
create_demo_passport-Admitted number env sets today visitor tester_id raw passport_id before s db
      later c h =
    let (_, on, h₁) = >>=-inv (require (enabled env) not_enabled) _ h in
    let (_, vault, h₂) = >>=-inv (require (is_some (contract_address env)) no_vault) _ h₁ in
    let (t, found, h₃) =
      >>=-inv (found_tester (find (λ t. text_eq t.tester_id tester_id) before.testers)) _ h₂ in
    let (body, given, h₄) = >>=-inv (parsed raw) _ h₃ in
    let (input, valid, h₅) = >>=-inv (checked (validate_demo_input sets body)) _ h₄ in
    let claims = demo_claim_list sets input.profile input.claims in
    let is_primary : ResolvedClaim → Bool = λ c. text_eq (resolved_field c) input.profile.primary in
    let (primary, is_found, h₆) = >>=-inv (numeric_primary (find is_primary claims)) _ h₅ in
    let (changed, gated, h₇) =
      >>=-inv
        (passed (gate number env today (queue_depth s) visitor t.id passport_id s.next_run db)) _
        h₆ in
    let (member, named) =
      find-Among (λ t. text_eq t.tester_id tester_id) before.testers t
        (found_tester-inv _ t found) in
    let (hit, is_number) = numeric_primary-inv (find is_primary claims) primary is_found in
    let (in_claims, field) = find-Among is_primary claims primary hit in
    let is_tester = (text_eq_iff t.tester_id tester_id).0 named in
    subst (Admitted number env sets today visitor tester_id raw before s db later) (ok-inj h₇)
      (record {
        on = require-eq-ok _ not_enabled on;
        vault = require-eq-ok _ no_vault vault;
        tester = t;
        known = member;
        named = is_tester;
        body = body;
        given = parsed-inv raw body given;
        valid = validate_demo_input-IsInput sets body input (checked-inv _ input valid);
        primary = primary;
        primary_claim = in_claims;
        primary_field = (text_eq_iff _ _).0 field;
        primary_number = is_number;
        granted =
            gate-Granted number env today (queue_depth s) visitor t.id passport_id s.next_run db
              changed (passed-inv _ changed gated);
        ids = (refl, refl);
        same_passport = refl;
        same_tester = (refl, is_tester);
        later_state = refl;
        position = refl;
      })
