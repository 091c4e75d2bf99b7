-- ===== src/Web/CampaignFeed.antt =====
-- apps/web/src/app/campaign/campaign-feed.ts. The key of an entry is composed by a function that is
-- an argument here.
use optio_ai_assignment.Prelude.{
  ℕ, zero, suc, ◌≤◌, String, ◌≡◌, refl, sym, ap, ◌∙◌, Option, some, List, [], ◌∷◌, take, arith,
}
use optio_ai_assignment.Shared.Events.{CampaignNotificationPayload}

pub record FeedEntry : Type 0 where
  pub key : String
  pub payload : CampaignNotificationPayload

pub record CampaignFeed : Type 0 where
  pub entries : List FeedEntry
  pub last_key : Option String

-- MAX_ENTRIES
abbrev pub max_entries : ℕ
max_entries = 50

module _ (key_of : CampaignNotificationPayload → String) where
  abbrev pub entry_of : CampaignNotificationPayload → FeedEntry
  entry_of payload = record { key = key_of payload; payload = payload }

  unfoldable pub receive : CampaignNotificationPayload → CampaignFeed → CampaignFeed
  receive payload feed = record {
    entries = take max_entries (entry_of payload ∷ feed.entries);
    last_key = some (key_of payload);
  }

  -- The feed after notifications, one behind the other.
  unfoldable pub receive_all : List CampaignNotificationPayload → CampaignFeed → CampaignFeed
  receive_all [] feed = feed
  receive_all (payload ∷ rest) feed = receive_all rest (receive payload feed)

  -- The entries of the notifications, the latest first, before older entries.
  unfoldable pub latest_first : List CampaignNotificationPayload → List FeedEntry → List FeedEntry
  latest_first [] older = older
  latest_first (payload ∷ rest) older = latest_first rest (entry_of payload ∷ older)

  take-take :
      (n : ℕ) (xs : List FeedEntry) (y : FeedEntry)
      → take (suc n) (y ∷ take (suc n) xs) ≡ take (suc n) (y ∷ xs)
  take-take n xs y = ap (◌∷◌ y) (shorter n (suc n) xs (omega arith))
    where
      shorter : (m k : ℕ) (zs : List FeedEntry) → m ≤ k → take m (take k zs) ≡ take m zs
      shorter zero k zs h = refl
      shorter (suc m) zero zs h = absurd (omega arith)
      shorter (suc m) (suc k) [] h = refl
      shorter (suc m) (suc k) (z ∷ zs) h = ap (◌∷◌ z) (shorter m k zs (omega arith))

  latest_first_congr :
      (n : ℕ) (ns : List CampaignNotificationPayload) (xs ys : List FeedEntry)
      → take (suc n) xs ≡ take (suc n) ys
      → take (suc n) (latest_first ns xs) ≡ take (suc n) (latest_first ns ys)
  unfolding latest_first
  latest_first_congr n [] xs ys e = e
  latest_first_congr n (payload ∷ rest) xs ys e =
      latest_first_congr n rest (entry_of payload ∷ xs) (entry_of payload ∷ ys) (
        sym (take-take n xs (entry_of payload))
        ∙ ap (λ zs. take (suc n) (entry_of payload ∷ zs)) e
        ∙ take-take n ys (entry_of payload))

  -- After any notifications a feed that shows at most 50 entries shows the 50 latest of all, the
  -- latest first: the new ones before those that it showed.
  pub receive_all-latest :
      (ns : List CampaignNotificationPayload) (feed : CampaignFeed)
      → take max_entries feed.entries ≡ feed.entries
      → (receive_all ns feed).entries ≡ take max_entries (latest_first ns feed.entries)
  unfolding receive_all receive latest_first
  receive_all-latest [] feed short = sym short
  receive_all-latest (payload ∷ rest) feed short =
      receive_all-latest rest (receive payload feed)
        (take_again 50 (entry_of payload ∷ feed.entries))
      ∙ latest_first_congr 49 rest (take max_entries (entry_of payload ∷ feed.entries))
          (entry_of payload ∷ feed.entries) (take_again 50 (entry_of payload ∷ feed.entries))
    where
      take_again : (k : ℕ) (xs : List FeedEntry) → take k (take k xs) ≡ take k xs
      take_again zero xs = refl
      take_again (suc k) [] = refl
      take_again (suc k) (x ∷ xs) = ap (◌∷◌ x) (take_again k xs)
