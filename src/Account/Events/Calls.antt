-- ===== src/Account/Events/Calls.antt =====
-- The requests of the sitter's side of app/frontend/pages/Account.jsx keep the page sound.
use mathlib.Core.Path.{subst}
use roost_assured.Common.{
  ℕ, suc, String, ◌≡◌, refl, sym, ap, ◌∙◌, Bool, true, false, not, ◌||◌, Option, none, some, List,
  [], ◌∷◌, arith, number_key, string_key, length, All,
}
use roost_assured.Common.Lists.{All-empty}
use roost_assured.Common.Tests.{if-cases}
use roost_assured.Api.{Settled, fulfilled, rejected}
use roost_assured.Api.Laws.{is_some}
use roost_assured.Account.{SitterForm, Application, User, Page}
use roost_assured.Account.Sitter.{
  FormData, build_profile, SitterCall, patch_profile, create_payment, post_application,
  patch_application, sitter_start, sitter_finish, application_start, PaymentResult, stripe_error,
  payment_thrown, payment_method, payment_finish, submitted_notice,
}
use roost_assured.Account.Sitter.Payments.{
  IsPaid, IsPaidCall, build_profile-IsPaid, application_start-IsPaid, payment_finish-IsPaid,
}
use roost_assured.Account.Events.{
  Visit, send_call, locked, click_profile, click_application, answer_stripe, answer_call,
}
use roost_assured.Account.Events.Sound.{pending, IsAllowed, IsSound, one_left}

-- After a call that locks the page just if it is made, with none under way before.
send_call-IsSound :
    (notice : String) (p : Page) (c : Option SitterCall) (v : Visit)
    → length v.saves ≡ pending p.submitting
    → length v.sitter_calls ≡ 0
    → All IsAllowed v.saved
    → All IsPaid v.called
    → p.sitter_submitting ≡ is_some c
    → IsPaidCall c
    → IsSound (send_call notice (p, c) v)
unfolding send_call
send_call-IsSound notice p none v saves idle allowed paid locks new = record {
  one_save = saves;
  one_call = idle ∙ ap pending (sym locks);
  allowed = allowed;
  paid = paid;
  paid_calls = All-empty (λ c. IsPaid c.1) v.sitter_calls idle;
}
send_call-IsSound notice p (some c) v saves idle allowed paid locks new = record {
  one_save = saves;
  one_call = ap suc idle ∙ ap pending (sym locks);
  allowed = allowed;
  paid = (new, paid);
  paid_calls = (new, All-empty (λ c. IsPaid c.1) v.sitter_calls idle);
}

-- The form is not locked, so no request is under way.
unlocked-idle :
    (v : Visit) (other : Bool) → IsSound v → locked v || other ≡ false → length v.sitter_calls ≡ 0
unlocked-idle v other i h = ground (arith, i.one_call, h)

application_start-locks :
    (number_text : ℕ → String) (application : Option Application) (ready : Bool) (form : SitterForm)
    (p : Page)
    → let (p', c) = application_start number_text application ready form p in
      (p'.submitting ≡ p.submitting) × (p'.sitter_submitting ≡ is_some c)
unfolding application_start sitter_start
application_start-locks number_text (some a) ready form p = (refl, refl)
application_start-locks number_text none true form p = (refl, refl)
application_start-locks number_text none false form p = (refl, refl)

payment_finish-locks :
    (entries : FormData) (r : PaymentResult) (p : Page)
    → p.sitter_submitting ≡ true
    → let (p', c) = payment_finish entries r p in
      (p'.submitting ≡ p.submitting) × (p'.sitter_submitting ≡ is_some c)
unfolding payment_finish
payment_finish-locks entries (stripe_error message) p h = (refl, refl)
payment_finish-locks entries (payment_thrown es) p h = (refl, refl)
payment_finish-locks entries (payment_method id) p h = (refl, h)

sitter_finish-locks :
    (notice : String) (r : Settled User) (p : Page)
    → ((sitter_finish notice r p).submitting ≡ p.submitting)
      × ((sitter_finish notice r p).sitter_submitting ≡ false)
unfolding sitter_finish
sitter_finish-locks notice (fulfilled u) p = (refl, refl)
sitter_finish-locks notice (rejected es) p = (refl, refl)

pub click_profile-IsSound :
    (number_text : ℕ → String) (v : Visit) (u : Option User) (form : Option SitterForm)
    → IsSound v
    → IsSound (click_profile number_text v u form)
unfolding click_profile sitter_start
click_profile-IsSound number_text v none form i = i
click_profile-IsSound number_text v (some u) none i = i
click_profile-IsSound number_text v (some u) (some form) i =
    if-cases IsSound (locked v || not (is_some u.sitter)) v _ (λ h. i)
      (λ h.
        send_call-IsSound "Sitter profile updated." (sitter_start v.page)
          (some (patch_profile (build_profile number_text form))) v i.one_save
          (unlocked-idle v (not (is_some u.sitter)) i h) i.allowed i.paid refl
          (build_profile-IsPaid number_text form))

pub click_application-IsSound :
    (number_text : ℕ → String) (ready : Bool) (v : Visit) (u : Option User)
    (form : Option SitterForm)
    → IsSound v
    → IsSound (click_application number_text ready v u form)
unfolding click_application
click_application-IsSound number_text ready v none form i = i
click_application-IsSound number_text ready v (some u) none i = i
click_application-IsSound number_text ready v (some u) (some form) i =
    let locks = application_start-locks number_text u.sitter_application ready form v.page in
    if-cases IsSound (locked v || is_some u.sitter) v _ (λ h. i)
      (λ h.
        send_call-IsSound (submitted_notice u.sitter_application) _ _ v
          (i.one_save ∙ ap pending (sym locks.0)) (unlocked-idle v (is_some u.sitter) i h) i.allowed
          i.paid locks.1
          (application_start-IsPaid number_text u.sitter_application ready form v.page))

held : (b : Bool) (n : ℕ) → suc n ≡ pending b → b ≡ true
held b n h = ground arith

pub answer_stripe-IsSound :
    (r : PaymentResult) (v : Visit) (calls : List (String × SitterCall))
    → v.sitter_calls ≡ calls
    → IsSound v
    → IsSound (answer_stripe r v calls)
unfolding answer_stripe
answer_stripe-IsSound r v ((notice, create_payment entries) ∷ rest) e i =
    let locked_page =
      held v.page.sitter_submitting (length rest) (ap length (sym e) ∙ i.one_call) in
    let locks = payment_finish-locks entries r v.page locked_page in
    let unpaid = (subst (λ calls. All (λ c. IsPaid c.1) calls) e i.paid_calls).0 in
    send_call-IsSound notice _ _ (record v { sitter_calls = rest })
      (i.one_save ∙ ap pending (sym locks.0))
      (one_left v.page.sitter_submitting (notice, create_payment entries) rest
        (ap length (sym e) ∙ i.one_call))
      i.allowed i.paid locks.1 (payment_finish-IsPaid entries r v.page unpaid)
answer_stripe-IsSound r v [] e i = i
answer_stripe-IsSound r v ((notice, patch_profile entries) ∷ rest) e i = i
answer_stripe-IsSound r v ((notice, post_application entries) ∷ rest) e i = i
answer_stripe-IsSound r v ((notice, patch_application entries) ∷ rest) e i = i

answered-IsSound :
    (notice : String) (r : Settled User) (v : Visit) (c : String × SitterCall)
    (rest : List (String × SitterCall))
    → v.sitter_calls ≡ c ∷ rest
    → IsSound v
    → IsSound (record v { page = sitter_finish notice r v.page; sitter_calls = rest })
answered-IsSound notice r v c rest e i = record {
  one_save = i.one_save ∙ ap pending (sym (sitter_finish-locks notice r v.page).0);
  one_call =
      one_left v.page.sitter_submitting c rest (ap length (sym e) ∙ i.one_call)
      ∙ ap pending (sym (sitter_finish-locks notice r v.page).1);
  allowed = i.allowed;
  paid = i.paid;
  paid_calls = (subst (λ calls. All (λ c. IsPaid c.1) calls) e i.paid_calls).1;
}

pub answer_call-IsSound :
    (r : Settled User) (v : Visit) (calls : List (String × SitterCall))
    → v.sitter_calls ≡ calls
    → IsSound v
    → IsSound (answer_call r v calls)
unfolding answer_call
answer_call-IsSound r v [] e i = i
answer_call-IsSound r v ((notice, create_payment entries) ∷ rest) e i = i
answer_call-IsSound r v ((notice, patch_profile entries) ∷ rest) e i =
    answered-IsSound notice r v (notice, patch_profile entries) rest e i
answer_call-IsSound r v ((notice, post_application entries) ∷ rest) e i =
    answered-IsSound notice r v (notice, post_application entries) rest e i
answer_call-IsSound r v ((notice, patch_application entries) ∷ rest) e i =
    answered-IsSound notice r v (notice, patch_application entries) rest e i
