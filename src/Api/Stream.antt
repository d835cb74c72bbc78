-- ===== src/Api/Stream.antt =====
-- `_stream_sse`: the chunks of a streamed answer, from what the producer thread puts in the queue.
use blitzwing.Base.{
  ℕ, suc, Bool, true, false, ◌≡◌, refl, ap, Option, none, some, List, [], ◌∷◌, ◌++◌,
}
use blitzwing.Base.Text.{Text, codes, join_texts}

-- An item of the queue: a piece of text, the end with the result's finish reason, or an error.
pub data Item : Type 0 where
  delta : Text → Item
  done : Option Text → Item
  failed : Text → Item

-- A chunk by its delta's role and content and its finish reason; or the line that ends the stream.
pub data Chunk : Type 0 where
  chunk : Option Text → Option Text → Option Text → Chunk
  done_line : Chunk

abbrev pub reason_or_stop : Option Text → Text
reason_or_stop none = codes "stop"
reason_or_stop (some r) = r

abbrev pub content_chunk : Text → Chunk
content_chunk t = chunk none (some t) none

-- The loop over the queue, which waits for ever if no item ends it.
unfoldable pub stream_items : List Item → List Chunk
stream_items [] = []
stream_items (delta t ∷ items) = content_chunk t ∷ stream_items items
stream_items (done r ∷ items) = chunk none none (some (reason_or_stop r)) ∷ done_line ∷ []
stream_items (failed t ∷ items) =
    chunk none (some (10 ∷ 10 ∷ codes "[error] " ++ t)) (some (codes "stop")) ∷ done_line ∷ []

unfoldable pub stream_sse : List Item → List Chunk
unfolding stream_items
stream_sse items = chunk (some (codes "assistant")) (some []) none ∷ stream_items items

-- `_producer`: the pieces of the generator, and then its result or its exception.
unfoldable pub produce : List Text → Item → List Item
produce [] last = last ∷ []
produce (t ∷ ts) last = delta t ∷ produce ts last

-- The texts of the chunks one after the other, their finish reasons, and the lines that end a stream.
unfoldable pub text_of : List Chunk → Text
text_of [] = []
text_of (chunk role (some t) reason ∷ cs) = t ++ text_of cs
text_of (_ ∷ cs) = text_of cs

unfoldable pub reasons_of : List Chunk → List Text
reasons_of [] = []
reasons_of (chunk role t (some reason) ∷ cs) = reason ∷ reasons_of cs
reasons_of (_ ∷ cs) = reasons_of cs

unfoldable pub done_lines : List Chunk → ℕ
done_lines [] = 0
done_lines (done_line ∷ cs) = suc (done_lines cs)
done_lines (_ ∷ cs) = done_lines cs

unfoldable pub ends_done : List Chunk → Bool
ends_done [] = false
ends_done (done_line ∷ []) = true
ends_done (c ∷ cs) = ends_done cs

items_text :
    (ts : List Text) (r : Option Text)
    → text_of (stream_items (produce ts (done r))) ≡ join_texts ts
unfolding text_of stream_items produce
items_text [] r = refl
items_text (t ∷ ts) r = ap (λ u. t ++ u) (items_text ts r)

items_reasons :
    (ts : List Text) (r : Option Text)
    → reasons_of (stream_items (produce ts (done r))) ≡ reason_or_stop r ∷ []
unfolding reasons_of stream_items produce
items_reasons [] r = refl
items_reasons (t ∷ ts) r = items_reasons ts r

items_done :
    (ts : List Text) (r : Option Text) → done_lines (stream_items (produce ts (done r))) ≡ 1
unfolding done_lines stream_items produce
items_done [] r = refl
items_done (t ∷ ts) r = items_done ts r

items_end :
    (ts : List Text) (r : Option Text) → ends_done (stream_items (produce ts (done r))) ≡ true
unfolding ends_done stream_items produce
items_end [] r = refl
items_end (t ∷ ts) r = items_end ts r

-- When the generator ends with a result, the stream has the pieces in order, one finish reason,
-- which is the result's or stop, and one line that ends it, the last.
pub stream_sse_lem :
    (ts : List Text) (r : Option Text)
    → (text_of (stream_sse (produce ts (done r))) ≡ join_texts ts)
      × (reasons_of (stream_sse (produce ts (done r))) ≡ reason_or_stop r ∷ [])
      × (done_lines (stream_sse (produce ts (done r))) ≡ 1)
      × (ends_done (stream_sse (produce ts (done r))) ≡ true)
unfolding stream_sse text_of reasons_of done_lines ends_done
stream_sse_lem ts r = (items_text ts r, items_reasons ts r, items_done ts r, items_end ts r)
