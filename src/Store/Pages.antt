-- ===== src/Store/Pages.antt =====
-- The queries of src/store/mod.rs for the admin pages: a page of the messages, and one message.
pub mod Covers
use mathlib.Core.Option
use sage_wiki_bridge_wxo.Base.{
  ℕ, ◌-◌, ◌*◌, ◌%◌, ◌^◌, Bool, true, false, ◌&&◌, ◌||◌, Option, none, some, List, [], ◌∷◌, ◌++◌,
  ltb, ◌==◌, if◌then◌else◌, length, map, take, drop, min, max, unwrap_or,
}
use sage_wiki_bridge_wxo.Text.{Text, lit, text_eq, non_empty}
use sage_wiki_bridge_wxo.Error.{database, Result, ok, ok_or, err}
use sage_wiki_bridge_wxo.Table.{first_where, select_where}
use sage_wiki_bridge_wxo.Enrich.JinaReader.{ascii_lower}
use sage_wiki_bridge_wxo.Store.Schema.{MessageStatus, message_status_text, MessageRow, Db}
use sage_wiki_bridge_wxo.Store.Messages.{row_not_found, has_id, is_later}

pub record MessageListQuery : Type 0 where
  pub page : ℕ
  pub per_page : ℕ
  pub keyword : Option Text
  pub message_type : Option Text
  pub status : Option Text
  pub sort_desc : Bool

pub record MessageListItem : Type 0 where
  pub id : ℕ
  pub received_at : Text
  pub message_type : Text
  pub from_openid_hash : Text
  pub status : Text
  pub content_preview : Text
  pub processed_preview : Text

pub record MessageListPage : Type 0 where
  pub items : List MessageListItem
  pub total : ℕ
  pub page : ℕ
  pub per_page : ℕ

-- SQLite's `LIKE`: `%` stands for any text and `_` for any character; the case of ASCII letters does
-- not count.
unfoldable pub some_rest : (Text → Bool) → Text → Bool
some_rest p [] = p []
some_rest p (c ∷ t) = p (c ∷ t) || some_rest p t

unfoldable pub like : Text → Text → Bool
unfolding some_rest ascii_lower
like [] [] = true
like [] (d ∷ t) = false
like (c ∷ pattern) [] = c == b'%' && like pattern []
like (c ∷ pattern) (d ∷ t) =
    let rest = like pattern in
    if c == b'%'
    then some_rest rest (d ∷ t)
    else (c == b'_' || ascii_lower c == ascii_lower d) && rest t

-- A column that is null is like nothing.
unfoldable pub column_like : Text → Option Text → Bool
unfolding like
column_like pattern none = false
column_like pattern (some t) = like pattern t

unfoldable pub has_keyword : Option Text → MessageRow → Bool
unfolding column_like
has_keyword none row = true
has_keyword (some pattern) row =
    column_like pattern row.content_text
    || column_like pattern row.processed_text
    || column_like pattern row.link_url
    || column_like pattern row.location_label
    || column_like pattern row.media_id
    || like pattern row.from_openid_hash

-- `?2 IS NULL OR message_type = ?2`
unfoldable pub is_or_any : Option Text → Text → Bool
is_or_any none t = true
is_or_any (some wanted) t = text_eq t wanted

unfoldable pub is_listed : MessageListQuery → MessageRow → Bool
unfolding has_keyword is_or_any
is_listed query row =
    has_keyword (Option.map (λ value. lit "%" ++ (value ++ lit "%")) (non_empty query.keyword)) row
    && is_or_any (non_empty query.message_type) row.message_type
    && is_or_any (non_empty query.status) (message_status_text row.status)

-- `ORDER BY received_at {order}, id {order}`
unfoldable pub stands_before : Bool → MessageRow → MessageRow → Bool
unfolding is_later
stands_before sort_desc a b = if sort_desc then is_later a b else is_later b a

unfoldable pub insert_row : Bool → MessageRow → List MessageRow → List MessageRow
unfolding stands_before
insert_row sort_desc row [] = row ∷ []
insert_row sort_desc row (other ∷ rows) =
    let rest = insert_row sort_desc row rows in
    if stands_before sort_desc row other then row ∷ other ∷ rows else other ∷ rest

unfoldable pub order_rows : Bool → List MessageRow → List MessageRow
unfolding insert_row
order_rows sort_desc [] = []
order_rows sort_desc (row ∷ rows) = insert_row sort_desc row (order_rows sort_desc rows)

-- The first that is not null.
unfoldable pub coalesce : List (Option Text) → Text
coalesce [] = []
coalesce (some t ∷ columns) = t
coalesce (none ∷ columns) = coalesce columns

unfoldable pub list_item : MessageRow → MessageListItem
unfolding coalesce
list_item row = record {
  id = row.id;
  received_at = row.received_at;
  message_type = row.message_type;
  from_openid_hash = row.from_openid_hash;
  status = message_status_text row.status;
  content_preview =
      take 160
        (coalesce (row.content_text ∷ row.link_url ∷ row.location_label ∷ row.media_id ∷ []));
  processed_preview = take 160 (coalesce (row.processed_text ∷ []));
}

-- The rows that the filters leave, in order.
unfoldable pub listed_rows : MessageListQuery → Db → List MessageRow
unfolding is_listed order_rows
listed_rows query db = order_rows query.sort_desc (select_where (is_listed query) db.messages)

-- `query.per_page.clamp(1, 100)`
unfoldable pub page_size : MessageListQuery → ℕ
page_size query = min (max query.per_page 1) 100

-- `(page - 1) * per_page` is a product of two `u32`, which wraps.
unfoldable pub page_offset : MessageListQuery → ℕ
unfolding page_size
page_offset query = (max query.page 1 - 1) * page_size query % 2 ^ 32

unfoldable pub list_messages : MessageListQuery → Db → MessageListPage
unfolding listed_rows page_offset page_size list_item
list_messages query db = record {
  items = map list_item (take (page_size query) (drop (page_offset query) (listed_rows query db)));
  total = length (select_where (is_listed query) db.messages);
  page = max query.page 1;
  per_page = page_size query;
}

pub record MessageDetail : Type 0 where
  pub id : ℕ
  pub request_id : Text
  pub wechat_msg_id : Option Text
  pub from_openid_hash : Text
  pub create_time : Option ℕ
  pub received_at : Text
  pub message_type : Text
  pub content_text : Option Text
  pub media_id : Option Text
  pub thumb_media_id : Option Text
  pub pic_url : Option Text
  pub voice_format : Option Text
  pub voice_recognition : Option Text
  pub location_lat : Option ℕ
  pub location_lng : Option ℕ
  pub location_scale : Option ℕ
  pub location_label : Option Text
  pub link_title : Option Text
  pub link_description : Option Text
  pub link_url : Option Text
  pub authorized : Bool
  pub status : Text
  pub raw_dir : Text
  pub source_path : Option Text
  pub processed_text : Option Text
  pub processed_at : Option Text

-- The columns of a row.
unfoldable pub message_detail : MessageRow → MessageDetail
message_detail row = record {
  id = row.id;
  request_id = row.request_id;
  wechat_msg_id = row.wechat_msg_id;
  from_openid_hash = row.from_openid_hash;
  create_time = row.create_time;
  received_at = row.received_at;
  message_type = row.message_type;
  content_text = row.content_text;
  media_id = row.media_id;
  thumb_media_id = row.thumb_media_id;
  pic_url = row.pic_url;
  voice_format = row.voice_format;
  voice_recognition = row.voice_recognition;
  location_lat = row.location_lat;
  location_lng = row.location_lng;
  location_scale = row.location_scale;
  location_label = row.location_label;
  link_title = row.link_title;
  link_description = row.link_description;
  link_url = row.link_url;
  authorized = row.authorized;
  status = message_status_text row.status;
  raw_dir = row.raw_dir;
  source_path = row.source_path;
  processed_text = row.processed_text;
  processed_at = row.processed_at;
}

unfoldable pub get_message_detail : ℕ → Db → Result MessageDetail
unfolding message_detail
get_message_detail message_id db = elim (first_where (has_id message_id) db.messages) [
  | none ↦ err (database row_not_found)
  | some row ↦ ok (message_detail row)
]
