-- ===== src/Account/Sections.antt =====
-- What a save of one section of app/frontend/pages/Account.jsx leaves of the others, with a server that
-- puts what it is sent into the account that it has stored.
use mathlib.Core.Option
use roost_assured.Common.{
  ℕ, zero, suc, ◌≡◌, refl, sym, ap, ◌∙◌, inl, inr, Bool, true, some, List, [], ◌∷◌, ◌++◌, map,
  if◌then◌else◌, nat_beq_iff, Bool-cases, number_key, string_key, any, All,
}
use roost_assured.Api.{fulfilled}
use roost_assured.Account.{
  Section, profile, flock, dates, payment, sitter, is_section, sections, Value, Field, name,
  phone_number, address, city, state, zip_code, flock_size_tier, coop_features, sitting_type,
  care_tasks, other_care_task, feeder_count, waterer_count, feed_location, water_location,
  special_requests, sitting_dates, index, is_field, Values, put, section_fields, payload, User,
  Page, save_finish,
}

-- The stored values with those that were sent.
abbrev pub merge : List (Field × Value) → Values → Values
merge [] stored = stored
merge (sent ∷ rest) stored = put sent.0 sent.1 (merge rest stored)

-- The fields by their indices; past the end, the last.
field_from : List Field → ℕ → Field
field_from [] n = sitting_dates
field_from (f ∷ fs) zero = f
field_from (f ∷ fs) (suc n) = field_from fs n

field_at : ℕ → Field
unfolding field_from
field_at n = field_from (section_fields profile ++ (section_fields flock ++ section_fields dates)) n

field_at-index : (f : Field) → field_at (index f) ≡ f
unfolding field_at
field_at-index name = refl
field_at-index phone_number = refl
field_at-index address = refl
field_at-index city = refl
field_at-index state = refl
field_at-index zip_code = refl
field_at-index flock_size_tier = refl
field_at-index coop_features = refl
field_at-index sitting_type = refl
field_at-index care_tasks = refl
field_at-index other_care_task = refl
field_at-index feeder_count = refl
field_at-index waterer_count = refl
field_at-index feed_location = refl
field_at-index water_location = refl
field_at-index special_requests = refl
field_at-index sitting_dates = refl

is_field→≡ : (f g : Field) → is_field f g ≡ true → f ≡ g
is_field→≡ f g h =
    sym (field_at-index f)
    ∙ (ap field_at ((nat_beq_iff (index f) (index g)).0 h) ∙ field_at-index g)

-- Is the field among these?
abbrev pub is_among : List Field → Field → Bool
is_among fs g = any (λ f. is_field f g) fs

merge-sent :
    (form stored : Values) (g : Field) (fs : List Field)
    → merge (map (λ f. (f, form f)) fs) stored g ≡ (if is_among fs g then form g else stored g)
unfolding put
merge-sent form stored g [] = refl
merge-sent form stored g (f ∷ fs) = elim (Bool-cases (is_field f g)) [
  | inl p ↦ rw p (ap form (is_field→≡ f g p))
  | inr p ↦ rw p (merge-sent form stored g fs)
]

-- The section whose form a field belongs to.
abbrev pub home_of : Field → Section
home_of name = profile
home_of phone_number = profile
home_of address = profile
home_of city = profile
home_of state = profile
home_of zip_code = profile
home_of flock_size_tier = flock
home_of coop_features = flock
home_of sitting_type = flock
home_of care_tasks = flock
home_of other_care_task = flock
home_of feeder_count = flock
home_of waterer_count = flock
home_of feed_location = flock
home_of water_location = flock
home_of special_requests = flock
home_of sitting_dates = dates

among_home :
    (g : Field) → All (λ s. is_among (section_fields s) g ≡ is_section (home_of g) s) sections
among_home name = (refl, (refl, (refl, (refl, (refl, tt)))))
among_home phone_number = (refl, (refl, (refl, (refl, (refl, tt)))))
among_home address = (refl, (refl, (refl, (refl, (refl, tt)))))
among_home city = (refl, (refl, (refl, (refl, (refl, tt)))))
among_home state = (refl, (refl, (refl, (refl, (refl, tt)))))
among_home zip_code = (refl, (refl, (refl, (refl, (refl, tt)))))
among_home flock_size_tier = (refl, (refl, (refl, (refl, (refl, tt)))))
among_home coop_features = (refl, (refl, (refl, (refl, (refl, tt)))))
among_home sitting_type = (refl, (refl, (refl, (refl, (refl, tt)))))
among_home care_tasks = (refl, (refl, (refl, (refl, (refl, tt)))))
among_home other_care_task = (refl, (refl, (refl, (refl, (refl, tt)))))
among_home feeder_count = (refl, (refl, (refl, (refl, (refl, tt)))))
among_home waterer_count = (refl, (refl, (refl, (refl, (refl, tt)))))
among_home feed_location = (refl, (refl, (refl, (refl, (refl, tt)))))
among_home water_location = (refl, (refl, (refl, (refl, (refl, tt)))))
among_home special_requests = (refl, (refl, (refl, (refl, (refl, tt)))))
among_home sitting_dates = (refl, (refl, (refl, (refl, (refl, tt)))))

is_among-home_of :
    (s : Section) (g : Field) → is_among (section_fields s) g ≡ is_section (home_of g) s
is_among-home_of profile g = (among_home g).0
is_among-home_of flock g = (among_home g).1.0
is_among-home_of dates g = (among_home g).1.1.0
is_among-home_of payment g = (among_home g).1.1.1.0
is_among-home_of sitter g = (among_home g).1.1.1.1.0

-- The six fields of the profile, the ten of the flock and coop, and the dates are each saved with
-- their own section: if the server takes the save of a section by putting what it is sent into the
-- account that it has stored, the forms of the page then hold, in the fields of that section, what was
-- typed, and in all others what is stored, whatever was typed there; the user of the session is the
-- same.
pub save_finish-values :
    (s : Section) (form : Values) (stored : User) (p : Page) (g : Field)
    → let user : User = record stored { values = merge (payload s form) stored.values } in
      let p' = save_finish (fulfilled user) p in
      (Option.map (λ u. u.values g) p'.form
        ≡ some (if is_section (home_of g) s then form g else stored.values g))
      × (p'.session_user ≡ p'.form)
unfolding save_finish payload
save_finish-values s form stored p g = (
  ap some (
      merge-sent form stored.values g (section_fields s)
      ∙ ap (λ b. if b then form g else stored.values g) (is_among-home_of s g)),
  refl,
)
