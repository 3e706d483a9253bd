-- ===== src/Account/Sitter/Payments.antt =====
-- Which of the sitter's requests of app/frontend/pages/Account.jsx carry a payment method.
use roost_assured.Common.{
  ℕ, ◌+◌, String, ◌≡◌, refl, ap, ◌∙◌, Bool, true, false, Option, none, some, List, [], ◌∷◌, ◌++◌,
  arith, ◌==◌, number_key, string_key, length, keep, length-append, keep-append,
}
use roost_assured.Account.{SitterForm, Application, Page}
use roost_assured.Account.Sitter.{
  text_part, FormData, build_application, build_profile, list_entries, file_entry, SitterCall,
  patch_profile, create_payment, post_application, patch_application, application_start,
  PaymentResult, stripe_error, payment_thrown, payment_method, payment_finish,
}

-- How many payment methods are among the entries.
abbrev pub payments : FormData → ℕ
payments entries = length (keep (λ e. e.0 == "payment_method_id") entries)

-- A new application carries one payment method, any other request none.
abbrev pub IsPaid : SitterCall → Type 0
IsPaid (patch_profile entries) = payments entries ≡ 0
IsPaid (create_payment entries) = payments entries ≡ 0
IsPaid (post_application entries) = payments entries ≡ 1
IsPaid (patch_application entries) = payments entries ≡ 0

payments-append : (d e : FormData) → payments (d ++ e) ≡ payments d + payments e
payments-append d e = ap length (keep-append _ d e) ∙ length-append (keep _ d) (keep _ e)

payments-list_entries :
    (key : String) (values : Option (List String))
    → (key == "payment_method_id") ≡ false
    → payments (list_entries key values) ≡ 0
payments-list_entries key none h = refl
payments-list_entries key (some values) h = go values
  where
    go : (values : List String) → payments (list_entries key (some values)) ≡ 0
    go [] = refl
    go (v ∷ values) = simp h (go values)

payments-file_entry :
    (key : String) (file : Option String)
    → (key == "payment_method_id") ≡ false
    → payments (file_entry key file) ≡ 0
payments-file_entry key none h = refl
payments-file_entry key (some file) h = simp h refl

module _ (number_text : ℕ → String) where
  payments-build_application :
      (form : SitterForm) → payments (build_application number_text form) ≡ 0
  unfolding build_application
  payments-build_application form =
      payments-append
        (list_entries "sitter_application[availability_days][]" form.availability_days) _
      ∙ omega (
        arith,
        payments-list_entries "sitter_application[availability_days][]" form.availability_days refl,
        payments-append
            (list_entries "sitter_application[availability_times][]" form.availability_times)
            (file_entry "sitter_application[resume]" form.resume),
        payments-list_entries "sitter_application[availability_times][]" form.availability_times
            refl,
        payments-file_entry "sitter_application[resume]" form.resume refl,
      )

  pub build_profile-IsPaid :
      (form : SitterForm) → IsPaid (patch_profile (build_profile number_text form))
  unfolding build_profile
  build_profile-IsPaid form = payments-file_entry "sitter[profile_photo]" form.profile_photo refl

-- Of a request that may not be made.
abbrev pub IsPaidCall : Option SitterCall → Type 0
IsPaidCall none = Unit
IsPaidCall (some c) = IsPaid c

pub application_start-IsPaid :
    (number_text : ℕ → String) (application : Option Application) (ready : Bool) (form : SitterForm)
    (p : Page)
    → IsPaidCall (application_start number_text application ready form p).1
unfolding application_start
application_start-IsPaid number_text (some a) ready form p =
    payments-build_application number_text form
application_start-IsPaid number_text none true form p = payments-build_application number_text form
application_start-IsPaid number_text none false form p = tt

pub payment_finish-IsPaid :
    (entries : FormData) (r : PaymentResult) (p : Page)
    → payments entries ≡ 0
    → IsPaidCall (payment_finish entries r p).1
unfolding payment_finish
payment_finish-IsPaid entries (stripe_error message) p h = tt
payment_finish-IsPaid entries (payment_thrown es) p h = tt
payment_finish-IsPaid entries (payment_method id) p h =
    payments-append entries (("payment_method_id", text_part id) ∷ []) ∙ omega (arith, h)
