-- ===== src/Tests/WebTests.antt =====
-- The web client and the gateway at concrete inputs.
use optio_ai_assignment.Prelude.{String, true, false, ◌≡◌, refl, none, some, [], ◌∷◌, take}
use optio_ai_assignment.Prelude.Int.{pos}
use optio_ai_assignment.Shared.Events.{CampaignNotificationPayload, add}
use optio_ai_assignment.Database.InMemory.{in_memory}
use optio_ai_assignment.Web.SegmentsList.{ListPage}
use optio_ai_assignment.Web.SegmentDetail.{DetailPage, Server, refused, has_next_page}
use optio_ai_assignment.Web.SegmentDetail.Paging.{Answers}
use optio_ai_assignment.Web.CampaignFeed.{
  CampaignFeed, receive_all, latest_first, receive_all-latest,
}
use optio_ai_assignment.Database.{dynamic}
use optio_ai_assignment.Tests.Data.{decimal_text, redis_sets}

abbrev listed : ListPage
listed = record {
  segments =
      record {
        id = "buyers";
        name = "Buyers";
        description = none;
        type = dynamic;
        member_count = pos 3;
        updated_at = 1;
      }
      ∷ [];
  loading = false;
  error = none;
  flashes = [];
}

abbrev server : Server
server = record {
  members = λ l o. record { total = 120; limit = l; offset = o };
  detail = refused none;
  deltas = [];
}

server-Answers : Answers server 120
server-Answers = record {
  total_lem = λ l o. refl;
  limit_lem = λ l o. refl;
  offset_lem = λ l o. refl;
}

abbrev shown : DetailPage
shown = record {
  id = "buyers";
  segment = none;
  deltas = [];
  members_page = some (record { total = 120; limit = 50; offset = 50 });
  offset = 50;
  loading = false;
  refreshing = false;
  error = none;
  last_delta_id = none;
}

more : has_next_page shown ≡ true
unfolding has_next_page
more = refl

abbrev key_of : CampaignNotificationPayload → String
key_of p = p.segment_id

abbrev news : CampaignNotificationPayload
news = record {
  at = 1;
  segment_id = "buyers";
  segment_name = "Buyers";
  kind = add;
  customer_names = "Ann" ∷ [];
  total_count = 1;
}

abbrev empty_feed : CampaignFeed
empty_feed = record { entries = []; last_key = none }

receive_all-latest_example :
    (receive_all key_of (news ∷ []) empty_feed).entries
    ≡ take 50 (latest_first key_of (news ∷ []) [])
receive_all-latest_example = receive_all-latest key_of (news ∷ []) empty_feed refl
