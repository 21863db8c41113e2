-- ===== src/Scraper.antt =====
-- The client of the scraper, backend/app/utils/allegro_scraper_client.py. The scraper, the network and
-- the clock are inputs.
pub mod Payload
pub mod Price
pub mod Client
pub mod Create
pub mod Finish
mod Tests
