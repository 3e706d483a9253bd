-- ===== src/Wizards/CareRequest/Examples.antt =====
-- An owner without an address who asks for care with app/frontend/components/CareRequestModal.jsx.
use roost_assured.Common.{String, none, some, List, [], ◌∷◌, number_key, string_key}
use roost_assured.Api.{fulfilled}
use roost_assured.Wizards.CareRequest.{User, address_field}
use roost_assured.Wizards.CareRequest.Runs.{RequestEvent, typed, toggled, submitted, answered}

abbrev owner : User
owner = record {
  phone_number = some "555-0148";
  address = none;
  city = some "Portland";
  state = some "OR";
  zip_code = some "97214";
  care_tasks = none;
  other_care_task = none;
  special_requests = none;
  sitting_dates = some [];
}

abbrev events : List (RequestEvent String)
events =
    submitted
    ∷ typed address_field "1 Coop Lane"
    ∷ submitted
    ∷ toggled "Collect eggs"
    ∷ submitted
    ∷ submitted
    ∷ submitted
    ∷ answered (fulfilled "Ada")
    ∷ []
