-- ===== src/Examples/Loading.antt =====
-- The theorem on the loading message.
use vllm_chill.Prelude.{codes, same, true, some, [], ◌++◌, map, if◌then◌else◌, ◌≡◌, refl, arith}
use vllm_chill.Kubernetes.Models.{is_empty}
use vllm_chill.Proxy.Json.{obj, find_field, get_field, as_object, as_items, as_text, first_item}
use vllm_chill.Proxy.Writer.{Env, content_of, delta_of}
use vllm_chill.Proxy.Writer.Write.Streams.{IsPlain}
use vllm_chill.Proxy.Loading.{
  loading_text, loading_chunk, finish_chunk, loading_events, send_loading_message,
}
use vllm_chill.Proxy.Loading.Delivered.{IsReadBack, loading_is_delivered}
use vllm_chill.Examples.Streams.{client, fresh, fresh-IsPlain}

-- JSON that has a word for each of the two chunks.
abbrev two_words : Env
two_words = record (client []) {
  marshal = λ c. if is_empty (content_of c) then codes "finish" else codes "loading";
  unmarshal = λ s.
      if same s (codes "loading")
      then some (obj (loading_chunk 0 (codes "m")))
      else some (obj (finish_chunk 0 (codes "m")));
}

loading-IsReadBack : IsReadBack two_words (loading_chunk 0 (codes "m"))
unfolding loading_chunk content_of delta_of get_field find_field as_object as_items as_text
    first_item same is_empty loading_text
loading-IsReadBack = (refl, (refl, (refl, (refl, (refl, (refl, (refl, (refl, tt))))))))

finish-IsReadBack : IsReadBack two_words (finish_chunk 0 (codes "m"))
unfolding finish_chunk content_of delta_of get_field find_field as_object as_items as_text
    first_item same is_empty
finish-IsReadBack = (refl, (refl, (refl, (refl, (refl, (refl, (refl, tt)))))))

loading_is_delivered_example :
    ((send_loading_message two_words true 0 (codes "m") fresh).sent
      ≡ [] ++ map (λ t. t.1) (loading_events two_words 0 (codes "m")))
    × IsPlain (send_loading_message two_words true 0 (codes "m") fresh)
loading_is_delivered_example =
    loading_is_delivered two_words 0 (codes "m") fresh ((λ h. omega (arith, h)), tt)
      loading-IsReadBack finish-IsReadBack fresh-IsPlain
