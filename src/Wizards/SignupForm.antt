-- ===== src/Wizards/SignupForm.antt =====
-- The fields of the form of app/frontend/pages/Signup.jsx, and what of them is sent.
use roost_assured.Common.{ℕ, String, Bool, false, List, [], number_key, string_key}
use roost_assured.Calendar.Picker.{Delta}
use roost_assured.Wizards.Widgets.{toggle_in_list, adjust_count}

pub record Form : Type 0 where
  pub city : String
  pub state : String
  pub zip_code : String
  pub flock_size_tier : String
  pub coop_features : List String
  pub sitting_type : String
  pub care_tasks : List String
  pub other_care_task : String
  pub feeder_count : List ℕ
  pub waterer_count : List ℕ
  pub feed_location : String
  pub water_location : String
  pub special_requests : String
  pub name : String
  pub email_address : String
  pub phone_number : String
  pub address : String
  pub password : String
  pub password_confirmation : String
  pub sitting_dates : List (List ℕ)
  pub agreed_to_terms : Bool

-- `initialForm`.
abbrev pub initial_form : Form
initial_form = record {
  city = "";
  state = "";
  zip_code = "";
  flock_size_tier = "";
  coop_features = [];
  sitting_type = "";
  care_tasks = [];
  other_care_task = "";
  feeder_count = [];
  waterer_count = [];
  feed_location = "";
  water_location = "";
  special_requests = "";
  name = "";
  email_address = "";
  phone_number = "";
  address = "";
  password = "";
  password_confirmation = "";
  sitting_dates = [];
  agreed_to_terms = false;
}

-- The fields that hold a text, a list or a count, by name.
pub data TextField : Type 0 where
  city_field state_field zip_code_field flock_size_tier_field sitting_type_field : TextField
  other_care_task_field feed_location_field water_location_field : TextField
  special_requests_field name_field email_address_field phone_number_field : TextField
  address_field password_field password_confirmation_field : TextField

pub data ListField : Type 0 where
  coop_features_field care_tasks_field : ListField

pub data CountField : Type 0 where
  feeder_count_field waterer_count_field : CountField

-- `handleChange` and `selectField`.
unfoldable pub set_field : TextField → String → Form → Form
set_field city_field v form = record form { city = v }
set_field state_field v form = record form { state = v }
set_field zip_code_field v form = record form { zip_code = v }
set_field flock_size_tier_field v form = record form { flock_size_tier = v }
set_field sitting_type_field v form = record form { sitting_type = v }
set_field other_care_task_field v form = record form { other_care_task = v }
set_field feed_location_field v form = record form { feed_location = v }
set_field water_location_field v form = record form { water_location = v }
set_field special_requests_field v form = record form { special_requests = v }
set_field name_field v form = record form { name = v }
set_field email_address_field v form = record form { email_address = v }
set_field phone_number_field v form = record form { phone_number = v }
set_field address_field v form = record form { address = v }
set_field password_field v form = record form { password = v }
set_field password_confirmation_field v form = record form { password_confirmation = v }

-- `toggleInList`.
unfoldable pub toggle_field : ListField → String → Form → Form
toggle_field coop_features_field v form = record form {
  coop_features = toggle_in_list form.coop_features v;
}
toggle_field care_tasks_field v form = record form { care_tasks = toggle_in_list form.care_tasks v }

-- `adjustCount`.
unfoldable pub adjust_field : CountField → Delta → Form → Form
adjust_field feeder_count_field delta form = record form {
  feeder_count = adjust_count form.feeder_count delta;
}
adjust_field waterer_count_field delta form = record form {
  waterer_count = adjust_count form.waterer_count delta;
}

-- What the registration endpoint is sent: `rest`, the form less the dates and the agreement.
pub record Account : Type 0 where
  pub city : String
  pub state : String
  pub zip_code : String
  pub flock_size_tier : String
  pub coop_features : List String
  pub sitting_type : String
  pub care_tasks : List String
  pub other_care_task : String
  pub feeder_count : List ℕ
  pub waterer_count : List ℕ
  pub feed_location : String
  pub water_location : String
  pub special_requests : String
  pub name : String
  pub email_address : String
  pub phone_number : String
  pub address : String
  pub password : String
  pub password_confirmation : String

unfoldable pub account_of : Form → Account
account_of f = record {
  city = f.city;
  state = f.state;
  zip_code = f.zip_code;
  flock_size_tier = f.flock_size_tier;
  coop_features = f.coop_features;
  sitting_type = f.sitting_type;
  care_tasks = f.care_tasks;
  other_care_task = f.other_care_task;
  feeder_count = f.feeder_count;
  waterer_count = f.waterer_count;
  feed_location = f.feed_location;
  water_location = f.water_location;
  special_requests = f.special_requests;
  name = f.name;
  email_address = f.email_address;
  phone_number = f.phone_number;
  address = f.address;
  password = f.password;
  password_confirmation = f.password_confirmation;
}
