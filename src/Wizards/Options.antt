-- ===== src/Wizards/Options.antt =====
-- The lists that the forms offer, app/frontend/lib/flockOptions.js.
use Prim.Native.String.{String}
use mathlib.Core.List.{List, [], ◌∷◌}

pub record FlockSizeTier : Type 0 where
  pub value : String
  pub range : String
  pub description : String

pub record SittingType : Type 0 where
  pub value : String
  pub description : String

abbrev pub flock_size_tiers : List FlockSizeTier
flock_size_tiers =
    record {
      value = "Small";
      range = "0-12";
      description = "A starter flock — easy to keep track of by name.";
    }
    ∷ record {
      value = "Medium";
      range = "13-25";
      description = "A well-established backyard flock.";
    }
    ∷ record {
      value = "Large";
      range = "26-50";
      description = "Serious hobbyist territory — probably selling eggs.";
    }
    ∷ record {
      value = "Jumbo";
      range = "51+";
      description = "Small-farm scale — a sitter should have real flock experience.";
    }
    ∷ []

abbrev pub coop_features : List String
coop_features =
    "Automatic door" ∷ "Manual door" ∷ "Free range" ∷ "Tractor / mobile" ∷ "Fully enclosed"
    ∷ "Electric fence" ∷ []

abbrev pub sitting_types : List SittingType
sitting_types =
    record {
      value = "Temporary sitter";
      description = "A one-off — vacation, travel, or an emergency. Care for a fixed date range.";
    }
    ∷ record {
      value = "Recurring help & maintenance";
      description = "Ongoing, scheduled visits — daily or weekly care as a standing arrangement.";
    }
    ∷ []

abbrev pub care_tasks : List String
care_tasks =
    "Feed & water" ∷ "Collect eggs" ∷ "Welfare check" ∷ "Cleaning" ∷ "Give treats / supplements"
    ∷ []
