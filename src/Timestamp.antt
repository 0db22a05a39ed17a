-- ===== src/Timestamp.antt =====
-- The timestamps of the components: `_parse(ts)`, that is
-- `datetime.fromisoformat(ts.replace("Z", "+00:00"))`, and `_iso`
-- (packages/python/atlas/review_queue.py and its siblings, which repeat the two functions).
-- A moment counts microseconds; the date is that of the text's own offset. A text without an
-- offset has no moment here, since comparing it with one that has an offset raises too.
mod Calendar
pub use Calendar.{Moment, date_days}
unfoldable pub use Calendar.{parse, iso}
