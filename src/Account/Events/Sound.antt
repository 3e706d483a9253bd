-- ===== src/Account/Events/Sound.antt =====
-- What the page of app/frontend/pages/Account.jsx sends, whatever happens to it.
use roost_assured.Common.{
  ℕ, String, ◌≡◌, refl, sym, ap, ◌∙◌, Bool, false, Option, none, some, List, [], ◌∷◌, arith,
  if◌then◌else◌, number_key, string_key, length, All,
}
use roost_assured.Common.Tests.{if-cases}
use roost_assured.Api.{Settled, fulfilled, rejected}
use roost_assured.Account.{
  Section, Value, Field, Values, Availability, User, Page, blocks_save, can_save, edit_values,
  save_start, save_finish, add_availability_finish, remove_availability_finish,
  payment_method_finish, onboarding_finish,
}
use roost_assured.Account.Sitter.{account_finish}
use roost_assured.Account.Sitter.Payments.{IsPaid}
use roost_assured.Account.Events.{
  Visit, on_page, shows, edit_shown, send_save, click_save, answer_save,
}

abbrev pub pending : Bool → ℕ
pending b = if b then 1 else 0

-- A save that its section allows; for the dates, the contact is complete in the form.
abbrev pub IsAllowed : Section × Values → Type 0
IsAllowed (s, form) = blocks_save s form ≡ false

-- The page is locked just while a request is under way, of which there is one at most, of each kind;
-- all saves were allowed, and all requests carry a payment method as they should.
pub record IsSound (v : Visit) : Type 0 where
  pub one_save : length v.saves ≡ pending v.page.submitting
  pub one_call : length v.sitter_calls ≡ pending v.page.sitter_submitting
  pub allowed : All IsAllowed v.saved
  pub paid : All IsPaid v.called
  pub paid_calls : All (λ c. IsPaid c.1) v.sitter_calls

-- A step of the page that leaves both locks.
pub record KeepsLocks (f : Page → Page) : Type 0 where
  pub save_lock : (p : Page) → (f p).submitting ≡ p.submitting
  pub sitter_lock : (p : Page) → (f p).sitter_submitting ≡ p.sitter_submitting

pub on_page-IsSound :
    (f : Page → Page) → KeepsLocks f → (v : Visit) → IsSound v → IsSound (on_page f v)
on_page-IsSound f k v s = record {
  one_save = s.one_save ∙ ap pending (sym (k.save_lock v.page));
  one_call = s.one_call ∙ ap pending (sym (k.sitter_lock v.page));
  allowed = s.allowed;
  paid = s.paid;
  paid_calls = s.paid_calls;
}

pub edit_values-KeepsLocks : (f : Values → Values) → KeepsLocks (edit_values f)
unfolding edit_values
edit_values-KeepsLocks f = record { save_lock = λ p. refl; sitter_lock = λ p. refl }

pub edit_shown-IsSound :
    (f : Field) (edit : Values → Values) (v : Visit) → IsSound v → IsSound (edit_shown f edit v)
edit_shown-IsSound f edit v s =
    if-cases IsSound (shows v.page f) _ v
      (λ h. on_page-IsSound (edit_values edit) (edit_values-KeepsLocks edit) v s) (λ h. s)

pub account_finish-KeepsLocks :
    (r : Settled (User × List Availability)) → KeepsLocks (account_finish r)
unfolding account_finish
account_finish-KeepsLocks (fulfilled (u, list)) = record {
  save_lock = λ p. refl;
  sitter_lock = λ p. refl;
}
account_finish-KeepsLocks (rejected es) = record { save_lock = λ p. refl; sitter_lock = λ p. refl }

pub add_availability-KeepsLocks :
    (r : Settled (List Availability)) → KeepsLocks (add_availability_finish r)
unfolding add_availability_finish
add_availability-KeepsLocks (fulfilled list) = record {
  save_lock = λ p. refl;
  sitter_lock = λ p. refl;
}
add_availability-KeepsLocks (rejected es) = record {
  save_lock = λ p. refl;
  sitter_lock = λ p. refl;
}

pub remove_availability-KeepsLocks :
    (r : Settled (List Availability)) → KeepsLocks (remove_availability_finish r)
unfolding remove_availability_finish
remove_availability-KeepsLocks (fulfilled list) = record {
  save_lock = λ p. refl;
  sitter_lock = λ p. refl;
}
remove_availability-KeepsLocks (rejected es) = record {
  save_lock = λ p. refl;
  sitter_lock = λ p. refl;
}

pub payment_method-KeepsLocks :
    (r : Settled (Bool × Option String)) → KeepsLocks (payment_method_finish r)
unfolding payment_method_finish
payment_method-KeepsLocks (fulfilled (has, key)) = record {
  save_lock = λ p. refl;
  sitter_lock = λ p. refl;
}
payment_method-KeepsLocks (rejected es) = record { save_lock = λ p. refl; sitter_lock = λ p. refl }

pub onboarding-KeepsLocks : (r : Settled String) → KeepsLocks (λ p. (onboarding_finish r p).0)
unfolding onboarding_finish
onboarding-KeepsLocks (fulfilled url) = record { save_lock = λ p. refl; sitter_lock = λ p. refl }
onboarding-KeepsLocks (rejected es) = record { save_lock = λ p. refl; sitter_lock = λ p. refl }

-- A save is sent only when none is under way.
pub click_save-IsSound :
    (s : Section) (v : Visit) (form : Option User) → IsSound v → IsSound (click_save s v form)
unfolding click_save send_save save_start
click_save-IsSound s v none i = i
click_save-IsSound s v (some u) i =
    if-cases IsSound (can_save s v.page u) _ v
      (λ h. record {
        one_save = ground (arith, i.one_save, h);
        one_call = i.one_call;
        allowed = (ground (arith, h), i.allowed);
        paid = i.paid;
        paid_calls = i.paid_calls;
      })
      (λ h. i)

save_finish-locks :
    (r : Settled User) (p : Page)
    → ((save_finish r p).submitting ≡ false)
      × ((save_finish r p).sitter_submitting ≡ p.sitter_submitting)
unfolding save_finish
save_finish-locks (fulfilled u) p = (refl, refl)
save_finish-locks (rejected es) p = (refl, refl)

pub one_left :
    {A : Type 0} (b : Bool) (x : A) (xs : List A) → length (x ∷ xs) ≡ pending b → length xs ≡ 0
one_left b x xs h = ground arith

pub answer_save-IsSound :
    (r : Settled User) (v : Visit) (saves : List (List (Field × Value)))
    → v.saves ≡ saves
    → IsSound v
    → IsSound (answer_save r v saves)
unfolding answer_save
answer_save-IsSound r v [] e i = i
answer_save-IsSound r v (c ∷ rest) e i = record {
  one_save =
      one_left v.page.submitting c rest (ap length (sym e) ∙ i.one_save)
      ∙ ap pending (sym (save_finish-locks r v.page).0);
  one_call = i.one_call ∙ ap pending (sym (save_finish-locks r v.page).1);
  allowed = i.allowed;
  paid = i.paid;
  paid_calls = i.paid_calls;
}
