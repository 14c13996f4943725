-- ===== src/LiveSearch/Tests.antt =====
-- Concrete runs of the live-search service, and the theorems about it at those runs.
use rust_web_fullstack.Prelude.{
  ◌/◌, ◌%◌, ◌^◌, ltb, ℕ, ◌+◌, ◌-◌, ◌*◌, true, false, String, Text, codes, text_eq, text_eq_iff,
  Option, none, some, List, [], ◌∷◌, take, All, ok, err, ◌≡◌, refl, arith, if◌then◌else◌, ◌==◌,
}
use rust_web_fullstack.Prelude.Int.{ℤ, pos, negsuc}
use rust_web_fullstack.Domain.{Uuid, SearchResult}
use rust_web_fullstack.LiveSearch.Events.{search_result}
use rust_web_fullstack.LiveSearch.Cache.{
  insert, CachedEntry, Moka, IsCache, new, get, invalidate_all,
}
use rust_web_fullstack.LiveSearch.Cache.Freshness.{Op, inserted, invalidated, contents, In, get-In}
use rust_web_fullstack.LiveSearch.Cache.Freshness.{run as run_ops}
use rust_web_fullstack.LiveSearch.Search.{finish_search, begin_search, normalized, hit, miss}
use rust_web_fullstack.LiveSearch.Search.Coherence.{finish_search-stale}
use rust_web_fullstack.LiveSearch.Listener.{
  newer_than, Rows, NotificationRow, listening, replaying, Listener, Input, connects, refuses,
  wakes, page, notifies, start, run,
}
use rust_web_fullstack.LiveSearch.Listener.Timing.{InRange, run-InRange}
use rust_web_fullstack.LiveSearch.Listener.Replay.{Climbs, pages, IsReplayed, replay-IsReplayed}
use rust_web_fullstack.LiveSearch.Listener.Delivery.{run-Climbs}
use rust_web_fullstack.LiveSearch.Listener.Missed.{AddsAbove, never_reached}
use rust_web_fullstack.LiveSearch.Cursor.{
  bar, precedes, Position, Codec, encode_cursor, decode_cursor,
}
use rust_web_fullstack.LiveSearch.Cursor.RoundTrip.{IsCodec, decode_cursor-encode_cursor}
use rust_web_fullstack.LiveSearch.Cursor.Paging.{follow, follow-take}
use rust_web_fullstack.LiveSearch.Feed.{Received}
use rust_web_fullstack.LiveSearch.Shutdown.{Joined}

-- A cache that is an association list.
abbrev pub look_up : Text → List (Text × CachedEntry) → Option CachedEntry
look_up j [] = none
look_up j ((k, v) ∷ c) = if text_eq j k then some v else look_up j c

abbrev pub moka : Moka (List (Text × CachedEntry))
moka = record { empty = []; get = look_up; insert = λ k v c. (k, v) ∷ c; age = λ c. c }

pub moka-IsCache : IsCache moka
moka-IsCache = record {
  get-empty = λ j. refl;
  get-insert = λ j k v w c e. ground (arith, text_eq_iff j k, e);
  get-age = λ j w c e. e;
}

abbrev pub result : SearchResult
result = record {
  id = 1;
  title = codes "t";
  url = codes "u";
  snippet = codes "s";
  created_at = pos 5;
}

abbrev ops : List Op
ops = inserted (codes "rust") (result ∷ []) ∷ invalidated ∷ inserted (codes "rust") [] ∷ []

get-In_example : In (codes "rust") (result ∷ []) (contents ops)
unfolding get run_ops insert invalidate_all
get-In_example = get-In moka ops (codes "rust") (result ∷ []) moka-IsCache (omega arith) refl

text_eq_self : (s : Text) → text_eq s s ≡ true
text_eq_self s = (text_eq_iff s s).1 refl

missed : begin_search moka (λ s. s) true (codes "rust") (new moka) ≡ miss (codes "rust")
unfolding begin_search normalized get new
missed = refl

finish_search-stale_example :
    (begin_search moka
        (λ s. s)
        true
        (codes "rust")
        (invalidate_all (finish_search moka (codes "rust") (ok (result ∷ [])) (new moka)).0)
      ≡ miss (codes "rust"))
    × (begin_search moka
          (λ s. s)
          true
          (codes "rust")
          (finish_search moka (codes "rust") (ok (result ∷ [])) (invalidate_all (new moka))).0
        ≡ hit (result ∷ []))
finish_search-stale_example =
    finish_search-stale moka (λ s. s) true (codes "rust") (codes "rust") (new moka) (result ∷ [])
      (λ k v c. ground (arith, text_eq_self k)) missed

abbrev parse_payload : Text → Option Uuid
parse_payload [] = none
parse_payload (c ∷ s) = some c

abbrev row : ℕ → NotificationRow
row n = record { id = n; title = codes "t"; url = codes "u"; snippet = codes "s"; event_seq = n }

abbrev rows : Rows
rows = row 1 ∷ row 2 ∷ row 4 ∷ []

rows-Climbs : Climbs 0 rows
rows-Climbs = (omega arith, (omega arith, (omega arith, tt)))

abbrev inputs : List Input
inputs =
    refuses
    ∷ wakes
    ∷ connects
    ∷ page (ok rows)
    ∷ notifies (7 ∷ []) (ok (row 7 ∷ []))
    ∷ notifies (4 ∷ []) (ok rows)
    ∷ []

run-InRange_example : InRange (run parse_payload inputs (start (new moka)))
unfolding start
run-InRange_example = run-InRange parse_payload inputs (start (new moka)) (omega arith, omega arith)

abbrev waiting : Listener (List (Text × CachedEntry))
waiting = record (start (new moka)) { phase = listening; last_seen_seq = 5 }

abbrev catching_up : Listener (List (Text × CachedEntry))
catching_up = record (start (new moka)) { phase = replaying 1 false; last_seen_seq = 1 }

replay-IsReplayed_example :
    IsReplayed 1 rows catching_up (run parse_payload (pages 1 rows) catching_up)
unfolding newer_than
replay-IsReplayed_example =
    replay-IsReplayed parse_payload 1 1 0 false rows catching_up rows-Climbs (omega arith) refl

run-Climbs_example : Climbs 0 (run parse_payload inputs (start (new moka))).sent
run-Climbs_example = run-Climbs parse_payload inputs (new moka) (rows-Climbs, tt)

never_reached_example :
    AddsAbove 5 waiting (run parse_payload (notifies (4 ∷ []) (ok rows) ∷ inputs) waiting)
never_reached_example =
    never_reached parse_payload 5 (notifies (4 ∷ []) (ok rows) ∷ inputs) waiting refl (omega arith)

-- Numbers are printed as one character from 0x80 on, and bytes are kept. An instant is a number of
-- nanoseconds, within the microseconds that an i64 holds.
abbrev print : ℤ → Text
print (pos n) = (n + 0x80) ∷ 0x80 ∷ []
print (negsuc n) = (n + 0x80) ∷ 0x81 ∷ []

abbrev parse : Text → Option ℤ
parse (c ∷ d ∷ []) = some (if d == 0x80 then pos (c - 0x80) else negsuc (c - 0x80))
parse s = none

abbrev of_micros : ℤ → Option ℕ
of_micros (pos m) = if ltb m (2 ^ 63) then some (m * 1_000) else none
of_micros (negsuc m) = none

abbrev codec : Codec ℕ
codec = record {
  timestamp_micros = λ t. pos (t / 1_000 % 2 ^ 63);
  from_timestamp_micros = of_micros;
  show_i64 = print;
  parse_i64 = parse;
  show_uuid = λ id. id ∷ [];
  parse_uuid = parse_payload;
  as_bytes = λ s. s;
  from_utf8 = some;
  base64url_encode = λ b. b;
  base64url_decode = some;
}

of_micros-made : (m : ℤ) (t : ℕ) → of_micros m ≡ some t → pos (t / 1_000 % 2 ^ 63) ≡ m
of_micros-made (pos m) t e = ground arith
of_micros-made (negsuc m) t e = ground arith

number : (n : ℤ) → parse (print n) ≡ some n
number (pos n) = ground arith
number (negsuc n) = ground arith

no_bar : (n : ℤ) → All (λ c. c == bar ≡ false) (print n)
no_bar (pos n) = ground arith
no_bar (negsuc n) = ground arith

codec-IsCodec : IsCodec codec
codec-IsCodec = record {
  micros = λ t. omega arith;
  made = of_micros-made;
  covers = λ t. ground arith;
  number = λ n fits. number n;
  no_bar = no_bar;
  uuid = λ id. refl;
  utf8 = λ s. refl;
  base64 = λ b. refl;
}

decode_cursor-encode_cursor_example :
    ((back : ℕ) × (decode_cursor codec (encode_cursor codec 1_700_999 42) ≡ ok (back, 42))
      × (codec.timestamp_micros back ≡ codec.timestamp_micros 1_700_999))
    × ((m : ℤ)
        → codec.from_timestamp_micros m ≡ some 1_700_999
        → decode_cursor codec (encode_cursor codec 1_700_999 42) ≡ ok (1_700_999, 42))
decode_cursor-encode_cursor_example = decode_cursor-encode_cursor codec codec-IsCodec 1_700_999 42

abbrev at : ℕ → ℕ → Position
at t id = record { created_at = t; id = id }

follow-take_example :
    follow (λ r. r) 2 2 (at 9 1 ∷ at 7 3 ∷ at 7 2 ∷ at 5 8 ∷ at 1 1 ∷ []) []
    ≡ take (2 * 2) (at 9 1 ∷ at 7 3 ∷ at 7 2 ∷ at 5 8 ∷ at 1 1 ∷ [])
unfolding precedes
follow-take_example =
    follow-take (λ r. r) 2 2 (at 9 1 ∷ at 7 3 ∷ at 7 2 ∷ at 5 8 ∷ at 1 1 ∷ [])
      (tt, (refl, (refl, (refl, (refl, tt)))))

abbrev stream : List Received
stream = ok (search_result (codes "t") (codes "u") (codes "s")) ∷ err 3 ∷ []

abbrev joined : List (Joined String)
joined = ok (ok tt) ∷ ok (err "listener failed") ∷ []
