-- ===== src/Resource.antt =====
-- src/resource.h, src/resource.cc: a monitored resource, and the order by which it is a key.
use metadata_agent.Prelude.{
  text_ord, Text, Bool, true, false, ◌&&◌, ◌||◌, [], ◌∷◌, some, ◌≡◌, arith, codes, map, ◌↔◌,
}
use metadata_agent.Prelude.Order.{Ord, lt, pair_ord, list_ord, same, same_iff, same_refl}
use metadata_agent.Prelude.Map.{Map}
use metadata_agent.Json.{Value, string, object_of}

abbrev pub Labels : Type 0
Labels = Map Text Text

pub record MonitoredResource : Type 0 where
  pub type : Text
  pub labels : Labels

instance abbrev pub labels_ord : Ord Labels
labels_ord = list_ord ⦃o = pair_ord⦄

-- operator==.
unfoldable pub resource_eq : MonitoredResource → MonitoredResource → Bool
resource_eq a b = same b.type a.type && same b.labels a.labels

-- operator<.
unfoldable pub resource_lt : MonitoredResource → MonitoredResource → Bool
resource_lt a b = lt a.type b.type || (same a.type b.type && lt a.labels b.labels)

pub resource_irrefl : (a : MonitoredResource) → resource_lt a a ≡ false
unfolding resource_lt
resource_irrefl a = ground (arith, text_ord.irrefl a.type, labels_ord.irrefl a.labels)

pub resource_trans :
    (a b c : MonitoredResource)
    → resource_lt a b ≡ true
    → resource_lt b c ≡ true
    → resource_lt a c ≡ true
unfolding resource_lt
resource_trans a b c h k = ground (
  arith,
  text_ord.trans a.type b.type c.type,
  labels_ord.trans a.labels b.labels c.labels,
  same_iff a.type b.type,
  same_iff b.type c.type,
  same_iff a.type c.type,
)

resource_path : {a b : MonitoredResource} → a.type ≡ b.type → a.labels ≡ b.labels → a ≡ b
resource_path p q = λ i. record { type = p i; labels = q i }

pub resource_total :
    (a b : MonitoredResource) → resource_lt a b ≡ false → resource_lt b a ≡ false → a ≡ b
unfolding resource_lt same
resource_total a b h k = ground (
  arith,
  text_ord.total a.type b.type,
  labels_ord.total a.labels b.labels,
  text_ord.irrefl a.type,
)

instance abbrev pub resource_ord : Ord MonitoredResource
resource_ord = record {
  lt = resource_lt;
  irrefl = resource_irrefl;
  trans = resource_trans;
  total = resource_total;
}

-- Two resources are equal by operator== exactly when they are the same resource, which is when
-- neither is below the other by operator<: a map keyed by resources confuses no two of them.
pub resource_eq_iff :
    (a b : MonitoredResource) → ((resource_eq a b ≡ true) ↔ (a ≡ b)) × (resource_eq a b ≡ same a b)
unfolding resource_eq
resource_eq_iff a b = (
  (
    λ h.
        ground (
          arith,
          same_iff b.type a.type,
          same_iff b.labels a.labels,
          resource_path {a = a} {b = b},
        ),
    λ e. ground (arith, same_refl b.type, same_refl b.labels),
  ),
  ground (
    arith,
    same_iff b.type a.type,
    same_iff b.labels a.labels,
    same_iff a b,
    resource_path {a = a} {b = b},
  ),
)

-- ToJSON.
unfoldable pub to_json : {Num : Type 0} → MonitoredResource → Value Num
to_json r = object_of (
    (codes "type", some (string r.type))
    ∷ (codes "labels", some (object_of (map (λ l. (l.0, some (string l.1))) r.labels)))
    ∷ [])
