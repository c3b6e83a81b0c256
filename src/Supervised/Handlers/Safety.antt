-- ===== src/Supervised/Handlers/Safety.antt =====
-- What reaches the backend through `Set` of pacsys/supervised/_server.py.
use pacsys.Prelude.{
  subst, take, ℕ, suc, ◌≤◌, ◌<◌, ◌≡◌, refl, sym, ap, ◌∙◌, ◌≢◌, Bool, true, false, Option, none,
  some, List, [], ◌∷◌, arith, ◌==◌, if◌then◌else◌, Result, ok, err, length, Text,
}
use pacsys.Supervised.Context.{Context, Decision, Method, Value, is_in}
use pacsys.Supervised.Chain.{Policy, evaluate_policies}
use pacsys.Supervised.Chain.Permits.{all_approved, all_permit, is_built_in, slot_approved}
use pacsys.Supervised.Chain.Evaluate.{Chained, evaluate_policies-Chained}
use pacsys.Supervised.Server.{
  Code, Outcome, Server, check_policies, check_token, check_unapproved, device_names,
  initial_context, refusal, refused, unapproved,
}
use pacsys.Supervised.Handlers.{
  Backend, converted, devices_of, handle_set, in_order, reply_of, set_named, set_values,
  unless_refused, write_allowed, write_context, with_value, write_decided, zip_values,
}

-- Below the first slot nothing is approved.
slot_approved-low :
    (ps : List Policy) (k i : ℕ) (ds : List Text) → i < k → slot_approved ps k i ds ≡ false
unfolding slot_approved
slot_approved-low ps k i [] h = refl
slot_approved-low ps k i (d ∷ ds) h = ground (arith, slot_approved-low ps (suc k) i ds)

unapproved-head :
    (k : ℕ) (d : Text) (ds : List Text) (slots : List ℕ)
    → unapproved k (d ∷ ds) slots ≡ []
    → (is_in k slots ≡ true) × (unapproved (suc k) ds slots ≡ [])
unfolding unapproved
unapproved-head k d ds slots h = ground arith

slot_approved-later :
    (ps : List Policy) (k i : ℕ) (d : Text) (ds : List Text)
    → suc k ≤ i
    → slot_approved ps k i (d ∷ ds) ≡ true
    → slot_approved ps (suc k) i ds ≡ true
unfolding slot_approved
slot_approved-later ps k i d ds le h = ground arith

unapproved-all_approved :
    (ps : List Policy) (k : ℕ) (ds : List Text) (slots : List ℕ)
    → unapproved k ds slots ≡ []
    → ((i : ℕ) → k ≤ i → is_in i slots ≡ true → slot_approved ps k i ds ≡ true)
    → all_approved ps ds ≡ true
unfolding unapproved all_approved slot_approved
unapproved-all_approved ps k [] slots h f = refl
unapproved-all_approved ps k (d ∷ ds) slots h f =
    let e = unapproved-head k d ds slots h in
    ground (
      arith,
      e,
      f k (omega arith),
      slot_approved-low ps (suc k) k ds (omega arith),
      unapproved-all_approved ps (suc k) ds slots (e.1)
          (λ i le m. slot_approved-later ps k i d ds le (f i (omega arith) m)),
    )

refusal-none : (ds : List Text) → refusal ds ≡ none → ds ≡ []
unfolding refusal
refusal-none [] h = refl
refusal-none (d ∷ ds) h =
    elim (device_names (d ∷ ds))
        as (λ r.
          elim r as (λ x. Option Code) [
            | ok ns ↦ some Code.permission_denied
            | err e ↦ some Code.unknown
          ]
            ≡ none
          → d ∷ ds ≡ []) [ ok ns ↦ λ k. cc | err e ↦ λ k. cc ]
      h

check_policies-evaluate :
    (now : ℕ) (ps : List Policy) (ctx : Context)
    → check_policies now ps ctx ≡ evaluate_policies now ps ctx
unfolding check_policies evaluate_policies
check_policies-evaluate now [] ctx = refl
check_policies-evaluate now (p ∷ ps) ctx = refl

module _ {A R : Type 0} (b : Backend A R) where
  reply_of-sent :
      (l m : List (Text × Value)) (r : Result (List A)) → (reply_of m r).sent ≡ some l → m ≡ l
  unfolding reply_of
  reply_of-sent l m (ok bs) h = cc
  reply_of-sent l m (err e) h = cc

  tested-sent :
      (t : Bool) (c : Code) (o : Outcome (List (Text × Value)) A) (l : List (Text × Value))
      → (if t then o else refused c).sent ≡ some l
      → o.sent ≡ some l
  unfolding refused
  tested-sent true c o l h = h
  tested-sent false c o l h = cc

  write_context-sent :
      (drfs : List Text) (ctx : Context) (l : List (Text × Value))
      → (write_context b drfs ctx).sent ≡ some l
      → zip_values ctx.drfs ctx.values ≡ l
  unfolding write_context refused
  write_context-sent drfs ctx l h =
      reply_of-sent l (zip_values ctx.drfs ctx.values)
        (in_order drfs ctx.drfs (b.write_many (zip_values ctx.drfs ctx.values)))
        (tested-sent (length ctx.drfs == length ctx.values) Code.invalid_argument _ l h)

  unless_refused-sent :
      (c : Option Code) (o : Outcome (List (Text × Value)) A) (l : List (Text × Value))
      → (unless_refused c o).sent ≡ some l
      → (c ≡ none) × (o.sent ≡ some l)
  unfolding unless_refused refused
  unless_refused-sent none o l h = (refl, h)
  unless_refused-sent (some c) o l h = cc

  write_decided-sent :
      (drfs : List Text) (d : Result Decision) (l : List (Text × Value))
      → (write_decided b drfs d).sent ≡ some l
      → (ctx : Context) × ((d ≡ ok (Decision.allow (some ctx)))
          × ((unapproved 0 drfs ctx.allowed ≡ []) × (zip_values ctx.drfs ctx.values ≡ l)))
  unfolding write_decided write_allowed refused check_unapproved
  write_decided-sent drfs (err e) l h = cc
  write_decided-sent drfs (ok Decision.deny) l h = cc
  write_decided-sent drfs (ok (Decision.allow none)) l h = cc
  write_decided-sent drfs (ok (Decision.allow (some ctx))) l h =
      let (e, k) = unless_refused-sent (check_unapproved drfs ctx) (write_context b drfs ctx) l h in
      (
        ctx,
        (refl, (refusal-none (unapproved 0 drfs ctx.allowed) e, write_context-sent drfs ctx l k)),
      )

zip_values-devices_of :
    (values : List (Text × Value)) → zip_values (devices_of values) values ≡ values
unfolding zip_values
zip_values-devices_of [] = refl
zip_values-devices_of ((d, v) ∷ rest) = ap (λ x. (d, v) ∷ x) (zip_values-devices_of rest)

with_value-some :
    (d : Text) (v : Value) (o : Option (List (Text × Value))) (values : List (Text × Value))
    → with_value d v o ≡ some values
    → (vs : List (Text × Value)) × ((o ≡ some vs) × (values ≡ (d, v) ∷ vs))
unfolding with_value
with_value-some d v none values h = cc
with_value-some d v (some vs) values h = (vs, (refl, ground arith))

converted-devices_of :
    (settings : List (Text × Option Value)) (values : List (Text × Value))
    → converted settings ≡ some values
    → devices_of settings ≡ devices_of values
unfolding converted
converted-devices_of [] values h = ground arith
converted-devices_of ((d, none) ∷ rest) values h = cc
converted-devices_of ((d, some v) ∷ rest) values h =
    let (vs, (e, k)) = with_value-some d v (converted rest) values h in
    ap (λ x. d ∷ x) (converted-devices_of rest vs e) ∙ ap devices_of (sym k)

value_or {ℓ} : {B : Type ℓ} → Option B → B → B
value_or none z = z
value_or (some w) z = w

some-injective {ℓ} : {B : Type ℓ} (x y : B) → some x ≡ some y → x ≡ y
unfolding value_or
some-injective x y h = ap (λ o. value_or o x) h

-- What holds of settings that are passed to the backend.
unfoldable pub IsSafe : List Policy → List (Text × Value) → Type 0
unfolding all_permit all_approved
IsSafe ps l = (all_permit ps (devices_of l) l ≡ true) × (all_approved ps (devices_of l) ≡ true)

Chained-IsSafe :
    (ps : List Policy) (peer : Text) (values l : List (Text × Value)) (out : Context)
    → Chained ps (initial_context Method.set peer (devices_of values) values) out
    → unapproved 0 (devices_of values) out.allowed ≡ []
    → zip_values out.drfs out.values ≡ l
    → (values ≡ l) × IsSafe ps values
unfolding initial_context IsSafe is_in
Chained-IsSafe ps peer values l out r hu hz = (
  sym (zip_values-devices_of values)
      ∙ ap (λ d. zip_values d values) (sym r.same_drfs)
      ∙ ap (λ v. zip_values out.drfs v) (sym r.same_values)
      ∙ hz,
  (
    r.permitted,
    unapproved-all_approved ps 0 (devices_of values) out.allowed hu (λ i le m. r.slots i m),
  ),
)

module _ {A R : Type 0} (b : Backend A R) where
  set_values-sent :
      (now : ℕ) (s : Server) (peer : Text) (values l : List (Text × Value))
      → is_built_in s.policies ≡ true
      → (set_values b now s peer (devices_of values) (some values)).1.sent ≡ some l
      → (values ≡ l) × IsSafe s.policies values
  unfolding set_values
  set_values-sent now s peer values l hb h =
      let ctx = initial_context Method.set peer (devices_of values) values in
      let (out, (e, (hu, hz))) =
        write_decided-sent b (devices_of values) (check_policies now s.policies ctx).1 l h in
      let (c, (hc, r)) =
        evaluate_policies-Chained now s.policies ctx (some out) hb refl
          (ap (λ x. x.1) (sym (check_policies-evaluate now s.policies ctx)) ∙ e) in
      Chained-IsSafe s.policies peer values l out
        (subst (λ x. Chained s.policies ctx x) (sym (some-injective out c hc)) r) hu hz

  converted-sent :
      (now : ℕ) (s : Server) (peer : Text) (settings : List (Text × Option Value))
      (o : Option (List (Text × Value))) (l : List (Text × Value))
      → is_built_in s.policies ≡ true
      → converted settings ≡ o
      → (set_values b now s peer (devices_of settings) o).1.sent ≡ some l
      → (o ≡ some l) × IsSafe s.policies l
  unfolding set_values refused
  converted-sent now s peer settings none l hb e h = cc
  converted-sent now s peer settings (some values) l hb e h =
      let (k, q) = set_values-sent now s peer values l hb (
        ap (λ d. (set_values b now s peer d (some values)).1.sent)
          (sym (converted-devices_of settings values e))
        ∙ h) in
      (ap some k, subst (λ v. IsSafe s.policies v) k q)

  set_named-sent :
      (now : ℕ) (s : Server) (peer : Text) (settings : List (Text × Option Value))
      (names : Result (List Text)) (l : List (Text × Value))
      → is_built_in s.policies ≡ true
      → (set_named b now s peer settings names).1.sent ≡ some l
      → (converted settings ≡ some l) × IsSafe s.policies l
  unfolding set_named refused
  set_named-sent now s peer settings (err e) l hb h = cc
  set_named-sent now s peer settings (ok names) l hb h =
      converted-sent now s peer settings (converted settings) l hb refl h

no_settings :
    (A : Type 0) (s : Server) (l : List (Text × Value)) (t : Bool)
    → (if◌then◌else◌ {A = Server × Outcome (List (Text × Value)) A} t
        (s, refused Code.invalid_argument)
        (s, refused Code.unauthenticated)).1.sent
      ≢ some l
unfolding refused
no_settings A s l true h = cc
no_settings A s l false h = cc

guarded_sent :
    {A : Type 0} (t : Bool) (o : Server × Outcome (List (Text × Value)) A) (s : Server)
    (l : List (Text × Value))
    → (if t then o else (s, refused Code.unauthenticated)).1.sent ≡ some l
    → (t ≡ true) × (o.1.sent ≡ some l)
unfolding refused
guarded_sent true o s l h = (refl, h)
guarded_sent false o s l h = cc

-- With the policies of the library alone, whatever `Set` passes to a backend are the settings of the request, in
-- their order: the token was right, every device is approved by a policy of mode "allow" for writes, no policy
-- of mode "deny" names a device for writes, every number is within the bound of its device, and no policy is
-- `ReadOnlyPolicy`.
pub handle_set-sent :
    {A R : Type 0} (b : Backend A R) (now : ℕ) (s : Server) (md : List (Text × Text)) (peer : Text)
    (settings : List (Text × Option Value)) (l : List (Text × Value))
    → is_built_in s.policies ≡ true
    → (handle_set b now s md peer settings).1.sent ≡ some l
    → (check_token s.token md ≡ true) × ((converted settings ≡ some l) × IsSafe s.policies l)
unfolding handle_set refused
handle_set-sent b now s md peer [] l hb h = absurd (no_settings _ s l (check_token s.token md) h)
handle_set-sent b now s md peer (x ∷ xs) l hb h =
    let (t, k) =
      guarded_sent (check_token s.token md)
        (set_named b now s peer (x ∷ xs) (device_names (take 5 (devices_of (x ∷ xs))))) s l h in
    (t, set_named-sent b now s peer (x ∷ xs) _ l hb k)
