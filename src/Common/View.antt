-- ===== src/Common/View.antt =====
-- What a component draws, in document order and without its styling: the words and values shown,
-- and the controls with what using them does. An action is of the component's own type.
use Prim.Native.Nat.{ℕ, ◌-◌}
use Prim.Native.String.{String}
use mathlib.Core.Bool.{Bool, true, false, not, ◌&&◌}
use mathlib.Core.Option.{Option, none, some}
use roost_assured.Common.Text.{text_or}
use mathlib.Core.List.{List, [], ◌∷◌}
use roost_assured.Common.Tests.{if◌then◌else◌, nat_beq, leb, ◌==◌, string_key}
use roost_assured.Common.Lists.{any}

pub data Node (Action : Type 0) : Type 0 where
  -- Words of the page, a text from the data, a number.
  heading words shown : String → Node Action
  number : ℕ → Node Action
  -- A line of dates or other parts, by their texts.
  pill : String → Node Action
  -- A flash message: `alert` for errors, `notice` otherwise.
  alert notice : String → Node Action
  -- A sum in dollars, rounded to whole ones; a distance in miles, given in tenths; a local date.
  dollars : String → Node Action
  miles : ℕ → Node Action
  date_label : List ℕ → Node Action
  -- A child component, by its name and the number of what it is about.
  child : String → ℕ → Node Action
  -- A form field: its name, its value, and whether the form cannot be sent without it.
  field : String → String → Bool → Node Action
  -- A checkbox: its name and its state.
  checkbox : String → Bool → Node Action
  -- An option of a list: its value and whether it is chosen.
  option : String → Bool → Action → Node Action
  -- A button: its label, whether it is disabled, and what a click does.
  button : String → Bool → Action → Node Action
  -- The button that sends the form.
  submit : String → Bool → Node Action
  -- A link to a page.
  link : String → Node Action
  -- A segment of a progress bar, lit or not.
  segment : Bool → Node Action

-- `{n} word{n === 1 ? "" : "s"}`.
abbrev pub counted : {A : Type 0} → ℕ → String → String → List (Node A)
counted n one many = number n ∷ words (if nat_beq n 1 then one else many) ∷ []

-- `{value || "—"}`, of a text that may be missing.
abbrev pub or_dash : Option String → String
or_dash none = "—"
or_dash (some s) = text_or s "—"

abbrev pub is_heading : {A : Type 0} → Node A → Bool
is_heading (heading t) = true
is_heading _ = false

-- `{m - n}`, which may be below zero.
abbrev pub difference : {A : Type 0} → ℕ → ℕ → List (Node A)
difference m n = if leb n m then number (m - n) ∷ [] else words "-" ∷ number (n - m) ∷ []

-- Is there a control, not disabled, whose action passes the test? A child of this name and number?
abbrev pub enables : {A : Type 0} → (A → Bool) → Node A → Bool
enables test (button label disabled a) = not disabled && test a
enables test (option value chosen a) = test a
enables test _ = false

abbrev pub offers : {A : Type 0} → (A → Bool) → List (Node A) → Bool
offers test nodes = any (enables test) nodes

abbrev is_child : {A : Type 0} → String → ℕ → Node A → Bool
is_child name i (child s j) = s == name && nat_beq j i
is_child name i _ = false

abbrev pub mounts : {A : Type 0} → String → ℕ → List (Node A) → Bool
mounts name i nodes = any (is_child name i) nodes
