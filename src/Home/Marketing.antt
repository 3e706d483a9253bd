-- ===== src/Home/Marketing.antt =====
-- `FaqItem` and `MarketingSections` of app/frontend/pages/Home.jsx, with their texts. Which question is
-- open is an index; `none` is the -1 of the source.
use mathlib.Core.List.{flat_map}
use roost_assured.Common.{
  ℕ, suc, String, Bool, false, Option, none, some, List, [], ◌∷◌, ◌++◌, nat_beq, if◌then◌else◌,
  number_key, string_key, when,
}
use roost_assured.Common.View.{Node, heading, words, button, link}

pub record Step : Type 0 where
  pub step : String
  pub title : String
  pub description : String

-- `HOW_IT_WORKS`.
abbrev pub how_it_works : List Step
how_it_works =
    record {
      step = "1";
      title = "Search your ZIP code";
      description =
          "Tell us where your coop is and we'll show you the chicken sitters already serving your area.";
    }
    ∷ record {
      step = "2";
      title = "Compare sitters & bids";
      description =
          "Review local sitters' experience and ratings, then pick the bid that fits your flock and budget.";
    }
    ∷ record {
      step = "3";
      title = "Relax with photo updates";
      description =
          "Your sitter feeds, waters, and collects eggs on schedule — with a photo after every visit.";
    }
    ∷ []

pub record Faq : Type 0 where
  pub q : String
  pub a : String

-- `FAQS`.
abbrev pub faqs : List Faq
faqs =
    record {
      q = "What does a chicken sitter do?";
      a =
          "A Roost Assured chicken sitter visits your coop while you're away to feed and water your flock, collect eggs, check for predator damage, and clean up as needed. Every visit ends with a photo update so you can see your flock is safe.";
    }
    ∷ record {
      q = "How much does chicken sitting cost?";
      a =
          "Sitters on Roost Assured set their own per-visit rate and bid on your specific request, so pricing varies by area and how much care your flock needs. You'll see exact bid amounts before you accept anyone.";
    }
    ∷ record {
      q = "Are Roost Assured sitters background-checked?";
      a =
          "Yes. Every sitter application goes through a background check before they're approved to bid on care requests.";
    }
    ∷ record {
      q = "What areas does Roost Assured serve?";
      a =
          "We're expanding one ZIP code at a time. Search your ZIP above to see if we're active near you — if not, join the waitlist and we'll email you the moment we launch in your area.";
    }
    ∷ record {
      q = "How do I become a chicken sitter?";
      a =
          "Create a free account, submit a sitter application, and pass a background check. Once approved, you can browse open care requests from chicken owners near you and submit bids.";
    }
    ∷ []

pub data FaqAction : Type 0 where
  toggle : ℕ → FaqAction

-- `setOpenFaq(openFaq === i ? -1 : i)`.
unfoldable pub toggle_faq : ℕ → Option ℕ → Option ℕ
toggle_faq i none = some i
toggle_faq i (some j) = if nat_beq j i then none else some i

abbrev is_open : Option ℕ → ℕ → Bool
is_open none i = false
is_open (some j) i = nat_beq j i

-- `FaqItem`.
faq_item : Bool → ℕ → Faq → List (Node FaqAction)
faq_item open_item i faq =
    button faq.q false (toggle i)
    ∷ words (if open_item then "−" else "+")
    ∷ when open_item (words faq.a ∷ [])

faq_items : Option ℕ → ℕ → List Faq → List (Node FaqAction)
unfolding faq_item
faq_items open_faq i [] = []
faq_items open_faq i (faq ∷ rest) =
    faq_item (is_open open_faq i) i faq ++ faq_items open_faq (suc i) rest

-- `MarketingSections`; the data for search engines is left out.
unfoldable pub render_marketing : Option ℕ → List (Node FaqAction)
unfolding faq_items
render_marketing open_faq =
    words "How it works"
    ∷ heading "Booking a trusted chicken sitter takes minutes."
    ∷ (flat_map (λ item. words item.step ∷ words item.title ∷ words item.description ∷ [])
          how_it_works
        ++ (words "Keep chickens yourself?"
            ∷ heading "Become a background-checked chicken sitter and earn on your own schedule."
            ∷ words
                "Set your own rates, bid on care requests near you, and get paid for feeding, egg collection, and coop care — no long-term commitment required."
            ∷ link "/become-a-sitter"
            ∷ words "FAQ"
            ∷ heading "Chicken sitting, answered."
            ∷ faq_items open_faq 0 faqs))
